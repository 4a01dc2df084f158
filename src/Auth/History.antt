-- ===== src/Auth/History.antt =====
-- Histories: any sequence of the operations of the authentication repositories.
use sme_data_center.Common.{
  ℕ, Bool, true, false, if◌then◌else◌, none, some, Option, List, [], ◌∷◌, ◌≡◌, refl,
}
use sme_data_center.Auth.Schema.{
  Reason, Audit, SecurityEvent, Db, Failure, Result, ok, err, ◌>>=◌, log, prune_security_events,
}
use sme_data_center.Auth.Sessions.{
  SessionInput, create_session_bundle, RotateInput, rotate_durable_credential,
  authenticate_access_token, revoke_by_credential, revoke_identity_sessions,
}
use sme_data_center.Auth.Devices.{
  DeviceInput, create_device_authorization, CompleteInput, complete_device_authorization,
  RedeemInput, redeem_device_authorization,
}
use sme_data_center.Auth.Setup.{
  GrantInput, replace_password_setup_grant, ExchangeInput, exchange_password_setup_grant,
  ConsumeInput, consume_password_setup_session,
}
use sme_data_center.Auth.Login.{Crypto, verify_login}
use sme_data_center.Auth.Browser.{BrowserInput, create_browser, revoke_browser}

pub data Call : Type 0 where
  opens_session : SessionInput → Call
  rotates : RotateInput → Call
  authenticates : ℕ → ℕ → Option Audit → Call
  logs_out : ℕ → Reason → ℕ → Option Audit → Call
  revokes_identity : ℕ → Reason → ℕ → Call
  issues_device : DeviceInput → Call
  completes_device : CompleteInput → Call
  redeems_device : RedeemInput → Call
  replaces_grant : GrantInput → Call
  exchanges_grant : ExchangeInput → Call
  consumes_setup : ConsumeInput → Call
  logs_in : ℕ → ℕ → ℕ → Option Audit → Call
  signs_in_browser : BrowserInput → Call
  signs_out_browser : ℕ → ℕ → Call
  writes_event : SecurityEvent → Call
  prunes_events : ℕ → Call

-- A transaction that fails leaves the database as it was.
abbrev pub after : {A : Type 0} → Db → Result (A × Db) → Db
after db (ok (a, later)) = later
after db (err e) = db

abbrev pub after_plain : Db → Result Db → Db
after_plain db (ok later) = later
after_plain db (err e) = db

unfoldable pub step : Crypto → Db → Call → Db
step crypto db (opens_session input) = after db (create_session_bundle input db)
step crypto db (rotates input) = after db (rotate_durable_credential input db)
step crypto db (authenticates hash now audit) =
    after db (authenticate_access_token hash now audit db)
step crypto db (logs_out hash reason now audit) =
    after db (revoke_by_credential hash reason now audit db)
step crypto db (revokes_identity id reason now) = (revoke_identity_sessions id reason now db).1
step crypto db (issues_device input) = after_plain db (create_device_authorization input db)
step crypto db (completes_device input) = after db (complete_device_authorization input db)
step crypto db (redeems_device input) = (redeem_device_authorization input db).1
step crypto db (replaces_grant input) = after db (replace_password_setup_grant input db)
step crypto db (exchanges_grant input) = after db (exchange_password_setup_grant input db)
step crypto db (consumes_setup input) = after db (consume_password_setup_session input db)
step crypto db (logs_in email password now audit) =
    after db (verify_login crypto email password now audit db)
step crypto db (signs_in_browser input) = after db (create_browser crypto.fingerprint input db)
step crypto db (signs_out_browser secret_hash now) = revoke_browser secret_hash now db
step crypto db (writes_event e) = log e db
step crypto db (prunes_events before) = (prune_security_events before db).1

unfoldable pub run : Crypto → Db → List Call → Db
run crypto db [] = db
run crypto db (c ∷ calls) = run crypto (step crypto db c) calls

-- What every call keeps, every history keeps.
pub run_inv :
    (crypto : Crypto) (P : Db → Type 0)
    → ((db : Db) (c : Call) → P db → P (step crypto db c))
    → (calls : List Call) (db : Db) → P db
    → P (run crypto db calls)
unfolding run
run_inv crypto P keep [] db p = p
run_inv crypto P keep (c ∷ calls) db p =
    run_inv crypto P keep calls (step crypto db c) (keep db c p)

-- The database after a transaction has the property. This is shut, so that the rules below find the
-- parts of the transaction.
pub Lands : {A : Type 0} → (Db → Type 0) → Db → Result (A × Db) → Type 0
Lands P db r = P (after db r)

module _ (P : Db → Type 0) where
  module _ (db : Db) where
    pub Lands-ok : {A : Type 0} (a : A) (later : Db) → P later → Lands P db (ok (a, later))
    unfolding Lands
    Lands-ok a later p = p

    pub Lands-pair : {A : Type 0} (r : A × Db) → P r.1 → Lands P db (ok r)
    unfolding Lands
    Lands-pair r p = p

    pub Lands-err : (A : Type 0) (e : Failure) → P db → Lands {A = A} P db (err e)
    unfolding Lands
    Lands-err A e p = p

    pub Lands-any : {A : Type 0} (r : Result (A × Db)) → P (after db r) → Lands P db r
    unfolding Lands
    Lands-any r p = p

    pub of-Lands : {A : Type 0} (r : Result (A × Db)) → Lands P db r → P (after db r)
    unfolding Lands
    of-Lands r l = l

    -- What holds before a chain of fallible parts, and after each way through it, holds after it.
    pub Lands-bind :
        {A B : Type 0} (m : Result A) (f : A → Result (B × Db))
        → P db
        → ((a : A) → m ≡ ok a → Lands P db (f a))
        → Lands P db (m >>= f)
    unfolding Lands
    Lands-bind (ok a) f p h = h a refl
    Lands-bind (err e) f p h = p

    pub Lands-if :
        {A : Type 0} (b : Bool) (x y : Result (A × Db))
        → (b ≡ true → Lands P db x)
        → (b ≡ false → Lands P db y)
        → Lands P db (if b then x else y)
    Lands-if true x y h k = h refl
    Lands-if false x y h k = k refl

    pub Lands-option :
        {A B : Type 0} (o : Option A) (n : Result (B × Db)) (k : A → Result (B × Db))
        → (o ≡ none → Lands P db n)
        → ((a : A) → o ≡ some a → Lands P db (k a))
        → Lands P db (elim o [ none ↦ n | some a ↦ k a ])
    Lands-option none n k h g = h refl
    Lands-option (some a) n k h g = g a refl
