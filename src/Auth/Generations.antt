-- ===== src/Auth/Generations.antt =====
-- The number of current credentials of a session, in the histories of Auth/History.
use sme_data_center.Common.{ℕ, ◌≤◌, true, List, [], ◌≡◌, arith, sym, subst, count, All}
use sme_data_center.Auth.Schema.{DurableCredential, Db}
use sme_data_center.Auth.Sessions.Single.{
  IsSingle, is_current_of, is_known, log-IsSingle, Untouched-IsSingle,
}
use sme_data_center.Auth.Devices.Frame.{
  create_device-Untouched, complete-Untouched, redeem-Untouched,
}
use sme_data_center.Auth.Setup.Frame.{replace-Untouched, exchange-Untouched}
use sme_data_center.Auth.Login.{Crypto}
use sme_data_center.Auth.Login.Frame.{login-Untouched}
use sme_data_center.Auth.Browser.Frame.{create_browser-Untouched, revoke_browser-Untouched}
use sme_data_center.Auth.Forever.{prune-Untouched}
use sme_data_center.Auth.History.{
  Call, opens_session, rotates, authenticates, logs_out, revokes_identity, issues_device,
  completes_device, redeems_device, replaces_grant, exchanges_grant, consumes_setup, logs_in,
  signs_in_browser, signs_out_browser, writes_event, prunes_events, step, run, run_inv, of-Lands,
}
use sme_data_center.Auth.Sessions.Generations.{
  bundle-IsSingle, rotate-IsSingle, authenticate-IsSingle, logout-IsSingle,
  revoke_identity-IsSingle,
}
use sme_data_center.Auth.Setup.Generations.{consume_setup-IsSingle}

step-IsSingle : (crypto : Crypto) (db : Db) (c : Call) → IsSingle db → IsSingle (step crypto db c)
unfolding step
step-IsSingle crypto db (opens_session input) h = of-Lands _ db _ (bundle-IsSingle input db h)
step-IsSingle crypto db (rotates input) h = of-Lands _ db _ (rotate-IsSingle input db h)
step-IsSingle crypto db (authenticates hash now audit) h =
    of-Lands _ db _ (authenticate-IsSingle hash now audit db h)
step-IsSingle crypto db (logs_out hash reason now audit) h =
    of-Lands _ db _ (logout-IsSingle hash reason now audit db h)
step-IsSingle crypto db (revokes_identity id reason now) h =
    revoke_identity-IsSingle id reason now db h
step-IsSingle crypto db (issues_device input) h =
    Untouched-IsSingle db _ (create_device-Untouched input db) h
step-IsSingle crypto db (completes_device input) h =
    Untouched-IsSingle db _ (complete-Untouched input db) h
step-IsSingle crypto db (redeems_device input) h =
    Untouched-IsSingle db _ (redeem-Untouched input db) h
step-IsSingle crypto db (replaces_grant input) h =
    Untouched-IsSingle db _ (replace-Untouched input db) h
step-IsSingle crypto db (exchanges_grant input) h =
    Untouched-IsSingle db _ (exchange-Untouched input db) h
step-IsSingle crypto db (consumes_setup input) h = consume_setup-IsSingle input db h
step-IsSingle crypto db (logs_in email password now audit) h =
    Untouched-IsSingle db _ (login-Untouched crypto email password now audit db) h
step-IsSingle crypto db (signs_in_browser input) h =
    Untouched-IsSingle db _ (create_browser-Untouched crypto.fingerprint input db) h
step-IsSingle crypto db (signs_out_browser hash now) h =
    Untouched-IsSingle db _ (revoke_browser-Untouched hash now db) h
step-IsSingle crypto db (writes_event e) h = log-IsSingle e db h
step-IsSingle crypto db (prunes_events before) h =
    Untouched-IsSingle db _ (prune-Untouched before db) h

-- From a database without credentials, whatever calls are made, each session has at most one
-- current credential.
pub run-current :
    (crypto : Crypto) (calls : List Call) (db : Db)
    → db.credentials ≡ []
    → (id : ℕ) → count (is_current_of id) (run crypto db calls).credentials ≤ 1
run-current crypto calls db none_yet id =
    (run_inv crypto IsSingle (step-IsSingle crypto) calls db (fresh db none_yet)).single id
  where
    fresh : (db : Db) → db.credentials ≡ [] → IsSingle db
    fresh db e = record {
      single = λ k. rw e (omega arith);
      known =
          subst (All (λ (c : DurableCredential). is_known c.session_id db.sessions ≡ true)) (sym e)
            tt;
    }
