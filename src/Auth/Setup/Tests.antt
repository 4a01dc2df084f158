-- ===== src/Auth/Setup/Tests.antt =====
-- The password setup theorems at the sample database.
use sme_data_center.Common.{true, none, some, [], ◌≡◌, ◌≢◌, refl, ◌==◌}
use sme_data_center.Auth.Schema.{Db, ok, password_reset}
use sme_data_center.Auth.Schema.Sample.{identity, owner, session, token, setup_session, sample}
use sme_data_center.Auth.Sessions.{
  authenticated, authenticate_access_token, RotateInput, rotated, rotate_durable_credential,
  find_token, revoke_token, revoke_sessions, revoke_session_family, revoke_browser_sessions,
}
use sme_data_center.Auth.Login.{Crypto}
use sme_data_center.Common.{List, ◌∷◌}
use sme_data_center.Auth.Schema.{
  SetupGrant, log, setup_grant_consumed, setup_grant_issued, create_setup_session, create_grant,
}
use sme_data_center.Auth.Schema.Sample.{grant}
use sme_data_center.Auth.Setup.{
  ExchangeInput, use_grant, setup_event, new_setup_session, exchange_password_setup_grant,
  exchange_found, open_setup_session, GrantInput, new_grant, close_grant, close_setup,
  replace_password_setup_grant,
}
use sme_data_center.Auth.Setup.Once.{exchanged-never_again, replaced-never_exchanges}
use sme_data_center.Auth.History.{Call, replaces_grant, prunes_events, run}
use sme_data_center.Auth.Setup.{
  ConsumeInput, consumed_db, reset_password, consume_found, consume_password_setup_session,
}
use sme_data_center.Auth.Setup.Reset.{consumed-never_authenticates, consumed-never_rotates}

abbrev crypto : Crypto
crypto = record { verify = λ password hash. password == hash; fingerprint = λ h. h }

abbrev input : ConsumeInput
input = record { session_hash = 66; password_hash = 8; now = 400; audit = none }

abbrev rotation : RotateInput
rotation = record {
  presented_credential_hash = 11;
  replacement_credential_hash = 12;
  access_token_hash = 22;
  access_token_expires_at = 2500;
  now = 450;
  audit = none;
  new_credential_id = 13;
  new_token_id = 23;
}

abbrev reset_db : Db
reset_db = reset_password input password_reset identity (consumed_db input setup_session sample)

consumes_here : consume_password_setup_session input sample ≡ ok (true, reset_db)
unfolding consume_password_setup_session consume_found
consumes_here = refl

token_after : find_token 21 (run crypto reset_db []) ≡ some (revoke_token 400 token)
unfolding run reset_password revoke_sessions revoke_session_family revoke_browser_sessions
token_after = refl

consumed-never_authenticates_example :
    authenticate_access_token 21 500 none (run crypto reset_db [])
    ≢ ok (some (authenticated token identity owner), sample)
consumed-never_authenticates_example =
    consumed-never_authenticates crypto input sample reset_db setup_session session 1 consumes_here
      refl refl refl refl [] 21 500 none (revoke_token 400 token) token_after refl
      (authenticated token identity owner) sample

consumed-never_rotates_example :
    rotate_durable_credential rotation (run crypto reset_db []) ≢ ok (rotated session, sample)
consumed-never_rotates_example =
    consumed-never_rotates crypto input sample reset_db setup_session session 1 consumes_here refl
      refl refl refl [] rotation session sample refl

abbrev open_grant : SetupGrant
open_grant = record grant { used_at = none }

abbrev open_db : Db
open_db = record sample { grants = open_grant ∷ []; setup_sessions = [] }

abbrev exchange : ExchangeInput
exchange = record {
  grant_token_hash = 61;
  session_hash = 67;
  expires_at = 4000;
  now = 500;
  audit = none;
  new_setup_session_id = 68;
}

abbrev used_grant : SetupGrant
used_grant = use_grant 500 open_grant

abbrev exchanged_db : Db
exchanged_db =
    log (setup_event setup_grant_consumed password_reset identity none 500) (record open_db {
      grants = used_grant ∷ [];
      setup_sessions = new_setup_session exchange open_grant ∷ [];
    })

exchanges_here :
    exchange_password_setup_grant exchange open_db ≡ ok (some (5, password_reset), exchanged_db)
unfolding exchange_password_setup_grant exchange_found open_setup_session create_setup_session
exchanges_here = refl

abbrev replacement : GrantInput
replacement = record {
  identity_id = 5;
  purpose = password_reset;
  token_hash = 62;
  expires_at = 6000;
  now = 450;
  new_grant_id = 69;
}

abbrev replaced_db : Db
replaced_db =
    log (setup_event setup_grant_issued password_reset identity none 450)
      (record open_db { grants = new_grant replacement ∷ close_grant 450 open_grant ∷ [] })

replaces_here : replace_password_setup_grant replacement open_db ≡ ok (69, replaced_db)
unfolding replace_password_setup_grant close_setup create_grant
replaces_here = refl

-- Another grant in between, and the events pruned.
abbrev between : List Call
between = replaces_grant replacement ∷ prunes_events 460 ∷ []

exchanged-never_again_example :
    exchange_password_setup_grant exchange (run crypto exchanged_db between)
    ≡ ok (none, run crypto exchanged_db between)
exchanged-never_again_example =
    exchanged-never_again crypto exchange open_db exchanged_db (5, password_reset) exchanges_here
      between exchange refl

replaced-never_exchanges_example :
    exchange_password_setup_grant exchange (run crypto replaced_db between)
    ≡ ok (none, run crypto replaced_db between)
replaced-never_exchanges_example =
    replaced-never_exchanges crypto replacement open_db replaced_db 69 61 open_grant replaces_here
      refl refl between exchange refl
