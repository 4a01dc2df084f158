-- ===== src/Auth/Devices/Once.antt =====
-- Device authorizations of prisma-auth-repository.ts, redeemed, in the histories of Auth/History.
use sme_data_center.Common.{ℕ, List, ◌≡◌, ◌≢◌, refl, subst, sym}
use sme_data_center.Auth.Schema.{Db, prune_security_events}
use sme_data_center.Auth.Sessions.Apart.{
  bundle-IsApart, rotate-IsApart, authenticate-IsApart, logout-IsApart, revoke_identity-IsApart,
}
use sme_data_center.Auth.Setup.Apart.{replace-devices, exchange-devices, consume-IsApart}
use sme_data_center.Auth.Login.{Crypto}
use sme_data_center.Auth.Login.Apart.{login-IsApart}
use sme_data_center.Auth.Browser.Apart.{create_browser-IsApart, revoke_browser-IsApart}
use sme_data_center.Auth.Devices.{RedeemInput, redeemed, redeem_device_authorization}
use sme_data_center.Auth.History.{
  Call, opens_session, rotates, authenticates, logs_out, revokes_identity, issues_device,
  completes_device, redeems_device, replaces_grant, exchanges_grant, consumes_setup, logs_in,
  signs_in_browser, signs_out_browser, writes_event, prunes_events, step, run, run_inv,
}
use sme_data_center.Auth.Devices.Spent.{
  IsSpent, issue-IsSpent, complete-IsSpent, redeem-IsSpent, redeem-marks, spent-ne-redeemed,
}

prune-devices : (before : ℕ) (db : Db) → (prune_security_events before db).1.devices ≡ db.devices
unfolding prune_security_events
prune-devices before db = refl

step-IsSpent :
    (crypto : Crypto) (code : ℕ) (db : Db) (c : Call)
    → IsSpent code db.devices
    → IsSpent code (step crypto db c).devices
unfolding step
step-IsSpent crypto code db (opens_session input) h = rw (bundle-IsApart input db).devices h
step-IsSpent crypto code db (rotates input) h = rw (rotate-IsApart input db).devices h
step-IsSpent crypto code db (authenticates hash now audit) h =
    rw (authenticate-IsApart hash now audit db).devices h
step-IsSpent crypto code db (logs_out hash reason now audit) h =
    rw (logout-IsApart hash reason now audit db).devices h
step-IsSpent crypto code db (revokes_identity id reason now) h =
    rw (revoke_identity-IsApart id reason now db).devices h
step-IsSpent crypto code db (issues_device input) h = issue-IsSpent code input db h
step-IsSpent crypto code db (completes_device input) h = complete-IsSpent code input db h
step-IsSpent crypto code db (redeems_device input) h = redeem-IsSpent code input db h
step-IsSpent crypto code db (replaces_grant input) h = rw (replace-devices input db) h
step-IsSpent crypto code db (exchanges_grant input) h = rw (exchange-devices input db) h
step-IsSpent crypto code db (consumes_setup input) h = rw (consume-IsApart input db).devices h
step-IsSpent crypto code db (logs_in email password now audit) h =
    rw (login-IsApart crypto email password now audit db).devices h
step-IsSpent crypto code db (signs_in_browser input) h =
    rw (create_browser-IsApart crypto.fingerprint input db).devices h
step-IsSpent crypto code db (signs_out_browser hash now) h =
    rw (revoke_browser-IsApart hash now db).devices h
step-IsSpent crypto code db (writes_event e) h = h
step-IsSpent crypto code db (prunes_events before) h = rw (prune-devices before db) h

-- Once a device code has been redeemed for an account, it is redeemed never again, by any client,
-- whatever calls are made in between.
pub redeemed-never_again :
    (crypto : Crypto) (input : RedeemInput) (x y z : ℕ) (db later : Db)
    → redeem_device_authorization input db ≡ (redeemed x y z, later)
    → (calls : List Call) (again : RedeemInput) → again.device_code_hash ≡ input.device_code_hash
    → (x' y' z' : ℕ) (last : Db)
    → redeem_device_authorization again (run crypto later calls) ≢ (redeemed x' y' z', last)
redeemed-never_again crypto input x y z db later e calls again same x' y' z' last =
    spent-ne-redeemed again x' y' z' _ last (
      subst (λ k. IsSpent k (run crypto later calls).devices) (sym same)
        (run_inv crypto (λ d. IsSpent input.device_code_hash d.devices)
          (λ d c. step-IsSpent crypto input.device_code_hash d c) calls later
          (redeem-marks input x y z db later e)))
