-- ===== src/Auth/Login/Apart.antt =====
-- A login leaves the device authorizations and the setup grants as they are.
use sme_data_center.Common.{ℕ, Option, arith}
use sme_data_center.Auth.Schema.{Audit, Db}
use sme_data_center.Auth.History.{after}
use sme_data_center.Auth.Sessions.Apart.{IsApart}
use sme_data_center.Auth.Login.{
  Crypto, record_login_failure, reset_login_failures, reject_password, accept_password,
  refuse_login, verify_found, verify_login,
}

pub login-IsApart :
    (crypto : Crypto) (email password now : ℕ) (audit : Option Audit) (db : Db)
    → IsApart db (after db (verify_login crypto email password now audit db))
unfolding verify_login verify_found record_login_failure reset_login_failures reject_password
    accept_password refuse_login
login-IsApart crypto email password now audit db = ground arith
