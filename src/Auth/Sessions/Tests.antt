-- ===== src/Auth/Sessions/Tests.antt =====
-- The session theorems at the sample database.
use sme_data_center.Common.{true, none, some, [], ◌∷◌, ◌≡◌, ◌≢◌, ◌↔◌, refl, ◌==◌}
use sme_data_center.Auth.Schema.{
  AuthSession, AccessToken, DurableCredential, consumed, Db, ok, logged_out,
  consumed_generation_reused,
}
use sme_data_center.Auth.Schema.Sample.{owner, identity, session, credential, token, sample}
use sme_data_center.Auth.Sessions.{
  RotateInput, rotated, replayed, detect_replay, rotate_found, rotate_durable_credential,
  revoke_session_family, new_credential, new_token, Authenticated, authenticated,
  authenticate_access_token, revoke_by_credential, mark_consumed, find_token, revoke_token,
}
use sme_data_center.Auth.Sessions.Accepted.{IsAccepted, authenticate_iff}
use sme_data_center.Auth.Sessions.Replay.{logged_out_db}
use sme_data_center.Auth.Login.{Crypto}
use sme_data_center.Auth.Sessions.{SessionInput}
use sme_data_center.Auth.Sessions.Single.{is_current_of}
use sme_data_center.Auth.Generations.{run-current}
use sme_data_center.Common.{List, [], ◌∷◌, count, ◌≤◌}
use sme_data_center.Auth.History.{Call, opens_session, rotates}
use sme_data_center.Auth.History.{prunes_events, step, run}
use sme_data_center.Auth.Ending.{
  replayed-never_authenticates, replayed-never_rotates, logged_out-never_authenticates,
  logged_out-never_rotates,
}

abbrev crypto : Crypto
crypto = record { verify = λ password hash. password == hash; fingerprint = λ h. h }

abbrev input : RotateInput
input = record {
  presented_credential_hash = 11;
  replacement_credential_hash = 12;
  access_token_hash = 22;
  access_token_expires_at = 2500;
  now = 100;
  audit = none;
  new_credential_id = 13;
  new_token_id = 23;
}

abbrev account : Authenticated
account = authenticated token identity owner

-- The sample with the credential rotated away, and no other.
abbrev spent : Db
spent = record sample { credentials = mark_consumed 90 credential ∷ [] }

abbrev replayed_db : Db
replayed_db = detect_replay consumed_generation_reused input session spent

abbrev rotated_db : Db
rotated_db = record sample {
  credentials = new_credential 13 1 12 2 ∷ mark_consumed 100 credential ∷ [];
  tokens = new_token 23 22 2500 session ∷ token ∷ [];
}

replays_here : rotate_durable_credential input spent ≡ ok (replayed 1, replayed_db)
unfolding rotate_durable_credential rotate_found
replays_here = refl

abbrev logged_out_sample : Db
logged_out_sample = logged_out_db session credential logged_out 300 none sample

logs_out_here : revoke_by_credential 11 logged_out 300 none sample ≡ ok (true, logged_out_sample)
unfolding revoke_by_credential
logs_out_here = refl

token_after_replay :
    find_token 21 (run crypto replayed_db (prunes_events 50 ∷ [])) ≡ some (revoke_token 100 token)
unfolding run step detect_replay revoke_session_family
    sme_data_center.Auth.Schema.prune_security_events
token_after_replay = refl

token_after_logout : find_token 21 (run crypto logged_out_sample []) ≡ some (revoke_token 300 token)
unfolding run step revoke_session_family
token_after_logout = refl

replayed-never_authenticates_example :
    (authenticate_access_token 21 150 none (run crypto replayed_db (prunes_events 50 ∷ []))
      ≢ ok (some account, sample))
replayed-never_authenticates_example =
    replayed-never_authenticates crypto input 1 spent replayed_db replays_here
      (prunes_events 50 ∷ []) 21 150 none (revoke_token 100 token) token_after_replay refl account
      sample

replayed-never_rotates_example :
    rotate_durable_credential input (run crypto replayed_db []) ≢ ok (rotated session, sample)
replayed-never_rotates_example =
    replayed-never_rotates crypto input 1 spent replayed_db replays_here [] input session sample
      refl

logged_out-never_authenticates_example :
    authenticate_access_token 21 150 none (run crypto logged_out_sample [])
    ≢ ok (some account, sample)
logged_out-never_authenticates_example =
    logged_out-never_authenticates crypto 11 logged_out 300 none sample logged_out_sample credential
      refl logs_out_here [] 21 150 none (revoke_token 300 token) token_after_logout refl account
      sample

logged_out-never_rotates_example :
    rotate_durable_credential input (run crypto logged_out_sample []) ≢ ok (rotated session, sample)
logged_out-never_rotates_example =
    logged_out-never_rotates crypto 11 logged_out 300 none sample logged_out_sample credential refl
      logs_out_here [] input session sample refl

authenticate_iff_example :
    ((later : Db) × (authenticate_access_token 21 150 none sample ≡ ok (some account, later)))
    ↔ IsAccepted 21 150 sample account
authenticate_iff_example = authenticate_iff 21 150 none sample account

abbrev opening : SessionInput
opening = record {
  identity_id = 5;
  employee_id = 7;
  org_id = 3;
  credential_hash = 11;
  access_token_hash = 24;
  absolute_expires_at = 900000;
  access_token_expires_at = 700;
  now = 50;
  audit = none;
  new_session_id = 2;
  new_credential_id = 14;
  new_token_id = 25;
}

abbrev calls : List Call
calls = opens_session opening ∷ rotates input ∷ []

run-current_example :
    count (is_current_of 2) (run crypto (record sample { credentials = [] }) calls).credentials ≤ 1
run-current_example = run-current crypto calls (record sample { credentials = [] }) refl 2
