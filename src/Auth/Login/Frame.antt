-- ===== src/Auth/Login/Frame.antt =====
-- A login leaves the session tables alone.
use sme_data_center.Common.{ℕ, Option, arith}
use sme_data_center.Auth.Schema.{Audit, Db}
use sme_data_center.Auth.Sessions.Family.{Untouched}
use sme_data_center.Auth.History.{after}
use sme_data_center.Auth.Login.{
  Crypto, record_login_failure, reset_login_failures, reject_password, accept_password,
  refuse_login, verify_found, verify_login,
}

pub login-Untouched :
    (crypto : Crypto) (email password now : ℕ) (audit : Option Audit) (db : Db)
    → Untouched db (after db (verify_login crypto email password now audit db))
unfolding verify_login verify_found refuse_login accept_password reject_password
    record_login_failure reset_login_failures
login-Untouched crypto email password now audit db = ground arith
