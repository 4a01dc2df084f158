-- ===== src/Auth/Core/Tests.antt =====
-- The lifetime theorem at the sample database.
use sme_data_center.Common.{◌+◌, ◌<◌, none, some, ◌≡◌, ◌↔◌, refl, ◌∷◌}
use sme_data_center.Auth.Schema.{
  Db, ok, log, session_created, succeeded, create_session, create_credential, create_token,
}
use sme_data_center.Auth.Schema.Sample.{sample}
use sme_data_center.Auth.Sessions.{
  create_session_bundle, store_session_bundle, usable_identity, is_usable, new_session,
  new_credential, new_token, session_event, SessionInput,
}
use sme_data_center.Auth.Core.{Account, NewIds, IssuedSession, Caller, open_session, authenticate}
use sme_data_center.Auth.Core.Lifetimes.{open_session-authenticate, session_input}

abbrev account : Account
account = record { identity_id = 5; employee_id = 7; org_id = 3 }

abbrev ids : NewIds
ids = record { session_id = 2; credential_id = 13; token_id = 23 }

abbrev issued : IssuedSession
issued = record {
  session_id = 2;
  durable_credential = 12;
  access_token = 22;
  absolute_expires_at = 2592000100;
  access_token_expires_at = 600100;
}

abbrev input : SessionInput
input = session_input (λ h. h) account 12 22 ids none 100

abbrev opened_db : Db
opened_db =
    log (session_event session_created succeeded none (new_session input) none 100) (record sample {
      sessions = new_session input ∷ sample.sessions;
      credentials = new_credential 13 2 12 1 ∷ sample.credentials;
      tokens = new_token 23 22 600100 (new_session input) ∷ sample.tokens;
    })

opens_here : open_session (λ h. h) account 12 22 ids none 100 sample ≡ ok (issued, opened_db)
unfolding open_session create_session_bundle store_session_bundle usable_identity is_usable
    create_session create_credential create_token
opens_here = refl

open_session-authenticate_example :
    ((c : Caller) × (last : Db) × (authenticate (λ h. h) 22 none 400 opened_db ≡ ok (some c, last))
      × (c.id ≡ 7)
      × (c.org_id ≡ 3))
    ↔ (400 < 100 + 600000)
open_session-authenticate_example =
    open_session-authenticate (λ h. h) account 12 22 ids none 100 sample opened_db issued opens_here
      400 none
