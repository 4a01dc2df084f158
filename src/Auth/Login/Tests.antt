-- ===== src/Auth/Login/Tests.antt =====
-- The login theorems at the sample database.
use sme_data_center.Common.{none, some, [], ◌∷◌, find, ◌≡◌, ◌↔◌, refl, ◌==◌, if◌then◌else◌}
use sme_data_center.Auth.Schema.{LoginIdentity, Db, ok}
use sme_data_center.Auth.Schema.Sample.{identity, owner, sample}
use sme_data_center.Auth.Login.{
  Crypto, LoggedIn, logged_in, rejected, cooldown_after_failure, fail_identity,
  record_login_failure, with_id, cooled_down, verify_login,
}
use sme_data_center.Auth.Login.Failures.{
  failed_row, until_after, fail_identity-eq, record_failure-found,
}
use sme_data_center.Auth.Login.Outcome.{CanLogIn, verify_login_iff, verify_login-cooling}

abbrev crypto : Crypto
crypto = record { verify = λ password hash. password == hash; fingerprint = λ h. h }

abbrev account : LoggedIn
account = record { identity_id = 5; employee_id = 7; org_id = 3; credential_fingerprint = 9 }

abbrev cooling : LoginIdentity
cooling = record identity { cooldown_until = some 9000; cooldown_level = 1 }

abbrev cooling_db : Db
cooling_db = record sample { identities = cooling ∷ [] }

fail_identity-eq_example :
    fail_identity 100 identity ≡ failed_row 100 identity (cooldown_after_failure 4 0)
fail_identity-eq_example = fail_identity-eq 100 identity

record_failure-found_example :
    (find (with_id 5) (record_login_failure 5 100 sample).1.identities
      ≡ some (
          if cooled_down 100 none
          then failed_row 100 identity (cooldown_after_failure 4 0)
          else identity))
    × ((record_login_failure 5 100 sample).0 ≡ (
        if cooled_down 100 none
        then until_after 100 (cooldown_after_failure 4 0).cooldown_ms
        else none))
record_failure-found_example = record_failure-found 5 100 sample identity refl

verify_login_iff_example :
    ((later : Db) × (verify_login crypto 71 9 100 none sample ≡ ok (logged_in account, later)))
    ↔ CanLogIn crypto 71 9 100 sample account
verify_login_iff_example = verify_login_iff crypto 71 9 100 none sample account

verify_login-cooling_example :
    (later : Db) × (verify_login crypto 71 9 100 none cooling_db ≡ ok (rejected, later))
    × (later.identities ≡ cooling_db.identities)
verify_login-cooling_example =
    verify_login-cooling crypto 71 9 100 none cooling_db cooling owner refl refl refl
