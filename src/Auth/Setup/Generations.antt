-- ===== src/Auth/Setup/Generations.antt =====
-- The number of current credentials of a session, when a new password is set.
use sme_data_center.Common.{◌≡◌, refl}
use sme_data_center.Auth.Schema.{Purpose, LoginIdentity, Db}
use sme_data_center.Auth.Sessions.Family.{revoke_browser_sessions-Untouched}
use sme_data_center.Auth.Sessions.Single.{
  IsSingle, log-IsSingle, Untouched-IsSingle, revoke_sessions-IsSingle,
}
use sme_data_center.Auth.Setup.{ConsumeInput, reset_password, consume_password_setup_session}
use sme_data_center.Auth.Setup.Frame.{consume_cases}
use sme_data_center.Auth.History.{after}

moved-IsSingle :
    (db later : Db)
    → later.sessions ≡ db.sessions
    → later.credentials ≡ db.credentials
    → IsSingle db
    → IsSingle later
moved-IsSingle db later p q h = record { single = rw q h.single; known = rw (p, q) h.known }

reset-IsSingle :
    (input : ConsumeInput) (purpose : Purpose) (i : LoginIdentity) (db : Db)
    → IsSingle db
    → IsSingle (reset_password input purpose i db)
unfolding reset_password
reset-IsSingle input purpose i db h = log-IsSingle _ _ (
    revoke_sessions-IsSingle _ _ _ _ _ _ (
      Untouched-IsSingle _ _ (revoke_browser_sessions-Untouched i.id input.now _)
        (moved-IsSingle db _ refl refl h)))

pub consume_setup-IsSingle :
    (input : ConsumeInput) (db : Db)
    → IsSingle db
    → IsSingle (after db (consume_password_setup_session input db))
consume_setup-IsSingle input db h =
    consume_cases IsSingle input db h (λ s. moved-IsSingle db _ refl refl h)
      λ s purpose i. reset-IsSingle input purpose i _ (moved-IsSingle db _ refl refl h)
