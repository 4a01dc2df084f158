-- ===== src/Auth/Forever.antt =====
-- An ended session family (Sessions/Family) under each operation of the authentication repositories,
-- and in the histories of Auth/History.
use sme_data_center.Common.{ℕ, List, arith}
use sme_data_center.Auth.Schema.{Db, prune_security_events}
use sme_data_center.Auth.Sessions.Family.{IsDead, Untouched, Untouched-IsDead, log-IsDead}
use sme_data_center.Auth.Sessions.Ended.{
  bundle-IsDead, rotate-IsDead, authenticate-IsDead, logout-IsDead, revoke_identity-IsDead,
}
use sme_data_center.Auth.Devices.Frame.{
  create_device-Untouched, complete-Untouched, redeem-Untouched,
}
use sme_data_center.Auth.Setup.Frame.{replace-Untouched, exchange-Untouched, consume-IsDead}
use sme_data_center.Auth.Login.{Crypto}
use sme_data_center.Auth.Login.Frame.{login-Untouched}
use sme_data_center.Auth.Browser.Frame.{create_browser-Untouched, revoke_browser-Untouched}
use sme_data_center.Auth.History.{
  Call, opens_session, rotates, authenticates, logs_out, revokes_identity, issues_device,
  completes_device, redeems_device, replaces_grant, exchanges_grant, consumes_setup, logs_in,
  signs_in_browser, signs_out_browser, writes_event, prunes_events, step, run, run_inv, of-Lands,
}

pub prune-Untouched : (before : ℕ) (db : Db) → Untouched db (prune_security_events before db).1
unfolding prune_security_events
prune-Untouched before db = ground arith

pub step-IsDead :
    (crypto : Crypto) (id : ℕ) (db : Db) (c : Call) → IsDead id db → IsDead id (step crypto db c)
unfolding step
step-IsDead crypto id db (opens_session input) d = of-Lands _ db _ (bundle-IsDead id input db d)
step-IsDead crypto id db (rotates input) d = of-Lands _ db _ (rotate-IsDead id input db d)
step-IsDead crypto id db (authenticates hash now audit) d =
    of-Lands _ db _ (authenticate-IsDead id hash now audit db d)
step-IsDead crypto id db (logs_out hash reason now audit) d =
    of-Lands _ db _ (logout-IsDead id hash reason now audit db d)
step-IsDead crypto id db (revokes_identity identity_id reason now) d =
    revoke_identity-IsDead id identity_id reason now db d
step-IsDead crypto id db (issues_device input) d =
    Untouched-IsDead id db _ (create_device-Untouched input db) d
step-IsDead crypto id db (completes_device input) d =
    Untouched-IsDead id db _ (complete-Untouched input db) d
step-IsDead crypto id db (redeems_device input) d =
    Untouched-IsDead id db _ (redeem-Untouched input db) d
step-IsDead crypto id db (replaces_grant input) d =
    Untouched-IsDead id db _ (replace-Untouched input db) d
step-IsDead crypto id db (exchanges_grant input) d =
    Untouched-IsDead id db _ (exchange-Untouched input db) d
step-IsDead crypto id db (consumes_setup input) d = consume-IsDead id input db d
step-IsDead crypto id db (logs_in email password now audit) d =
    Untouched-IsDead id db _ (login-Untouched crypto email password now audit db) d
step-IsDead crypto id db (signs_in_browser input) d =
    Untouched-IsDead id db _ (create_browser-Untouched crypto.fingerprint input db) d
step-IsDead crypto id db (signs_out_browser hash now) d =
    Untouched-IsDead id db _ (revoke_browser-Untouched hash now db) d
step-IsDead crypto id db (writes_event e) d = log-IsDead id e db d
step-IsDead crypto id db (prunes_events before) d =
    Untouched-IsDead id db _ (prune-Untouched before db) d

-- Whatever is called later, an ended session family stays ended: its session inactive, each of its
-- credentials and tokens revoked.
pub run-IsDead :
    (crypto : Crypto) (id : ℕ) (calls : List Call) (db : Db)
    → IsDead id db
    → IsDead id (run crypto db calls)
run-IsDead crypto id = run_inv crypto (IsDead id) (step-IsDead crypto id)
