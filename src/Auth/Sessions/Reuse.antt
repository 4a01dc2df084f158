-- ===== src/Auth/Sessions/Reuse.antt =====
-- A credential that `rotateDurableCredential` has replaced, presented again.
