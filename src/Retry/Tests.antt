-- ===== src/Retry/Tests.antt =====
-- The loop on an operation that fails for as long as its counter says.
use sme_data_center.Common.{ℕ, suc, zero, some, none, arith}
use sme_data_center.Retry.{Outcome, returned, thrown, retry}
use sme_data_center.Retry.Bounds.{Answer, retry-Answer}

flaky : ℕ → Outcome ℕ × ℕ
flaky zero = (returned 7, zero)
flaky (suc n) = (thrown (record { code = some 2034; mysql_code = none }), n)

retry-Answer_example : Answer flaky 3 5 (retry flaky 3 5)
retry-Answer_example = retry-Answer flaky 3 5 (omega arith)
