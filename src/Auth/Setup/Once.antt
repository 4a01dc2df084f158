-- ===== src/Auth/Setup/Once.antt =====
-- Setup grants of prisma-auth-repository.ts, used or withdrawn, in the histories of Auth/History.
use sme_data_center.Common.{ℕ, none, some, List, ◌≡◌, subst, sym}
use sme_data_center.Auth.Schema.{Purpose, SetupGrant, Db, ok, prune_security_events}
use sme_data_center.Auth.Sessions.Apart.{
  bundle-IsApart, rotate-IsApart, authenticate-IsApart, logout-IsApart, revoke_identity-IsApart,
}
use sme_data_center.Auth.Devices.Apart.{issue-grants, complete-grants, redeem-grants}
use sme_data_center.Auth.Setup.Apart.{consume-IsApart}
use sme_data_center.Auth.Login.{Crypto}
use sme_data_center.Auth.Login.Apart.{login-IsApart}
use sme_data_center.Auth.Browser.Apart.{create_browser-IsApart, revoke_browser-IsApart}
use sme_data_center.Auth.Setup.{
  GrantInput, replace_password_setup_grant, ExchangeInput, exchange_password_setup_grant,
}
use sme_data_center.Auth.History.{
  Call, opens_session, rotates, authenticates, logs_out, revokes_identity, issues_device,
  completes_device, redeems_device, replaces_grant, exchanges_grant, consumes_setup, logs_in,
  signs_in_browser, signs_out_browser, writes_event, prunes_events, step, run, run_inv,
}
use sme_data_center.Auth.Setup.Grants.{find_grant, IsOver, IsOver-refused, exchange-marks}
use sme_data_center.Auth.Setup.Withdrawn.{replace-ends, replace-IsOver, exchange-IsOver}

step-IsOver :
    (crypto : Crypto) (hash : ℕ) (db : Db) (c : Call)
    → IsOver hash db.grants
    → IsOver hash (step crypto db c).grants
unfolding step prune_security_events
step-IsOver crypto hash db (opens_session input) h = rw (bundle-IsApart input db).grants h
step-IsOver crypto hash db (rotates input) h = rw (rotate-IsApart input db).grants h
step-IsOver crypto hash db (authenticates token now audit) h =
    rw (authenticate-IsApart token now audit db).grants h
step-IsOver crypto hash db (logs_out credential reason now audit) h =
    rw (logout-IsApart credential reason now audit db).grants h
step-IsOver crypto hash db (revokes_identity id reason now) h =
    rw (revoke_identity-IsApart id reason now db).grants h
step-IsOver crypto hash db (issues_device input) h = rw (issue-grants input db) h
step-IsOver crypto hash db (completes_device input) h = rw (complete-grants input db) h
step-IsOver crypto hash db (redeems_device input) h = rw (redeem-grants input db) h
step-IsOver crypto hash db (replaces_grant input) h = replace-IsOver hash input db h
step-IsOver crypto hash db (exchanges_grant input) h = exchange-IsOver hash input db h
step-IsOver crypto hash db (consumes_setup input) h = rw (consume-IsApart input db).grants h
step-IsOver crypto hash db (logs_in email password now audit) h =
    rw (login-IsApart crypto email password now audit db).grants h
step-IsOver crypto hash db (signs_in_browser input) h =
    rw (create_browser-IsApart crypto.fingerprint input db).grants h
step-IsOver crypto hash db (signs_out_browser secret now) h =
    rw (revoke_browser-IsApart secret now db).grants h
step-IsOver crypto hash db (writes_event e) h = h
step-IsOver crypto hash db (prunes_events before) h = h

-- A secret that is over is refused after any calls.
over-refused :
    (crypto : Crypto) (calls : List Call) (again : ExchangeInput) (hash : ℕ) (db : Db)
    → IsOver hash db.grants
    → again.grant_token_hash ≡ hash
    → exchange_password_setup_grant again (run crypto db calls) ≡ ok (none, run crypto db calls)
over-refused crypto calls again hash db h same = IsOver-refused again (run crypto db calls) (
    subst (λ k. IsOver k (run crypto db calls).grants) (sym same)
      (run_inv crypto (λ d. IsOver hash d.grants) (λ d c. step-IsOver crypto hash d c) calls db h))

-- A setup grant that was exchanged is exchanged no second time: whatever calls are made in between,
-- and at whatever time, an exchange with its secret opens no setup session and changes nothing.
pub exchanged-never_again :
    (crypto : Crypto) (input : ExchangeInput) (db later : Db) (r : ℕ × Purpose)
    → exchange_password_setup_grant input db ≡ ok (some r, later)
    → (calls : List Call) (again : ExchangeInput) → again.grant_token_hash ≡ input.grant_token_hash
    → exchange_password_setup_grant again (run crypto later calls)
      ≡ ok (none, run crypto later calls)
exchanged-never_again crypto input db later r e calls again same =
    over-refused crypto calls again input.grant_token_hash later (exchange-marks input db later r e)
      same

-- A new setup grant withdraws the earlier ones: whatever calls are made after it, and at whatever
-- time, an exchange with the secret of a grant that its identity had before opens no setup session
-- and changes nothing.
pub replaced-never_exchanges :
    (crypto : Crypto) (input : GrantInput) (db later : Db) (id hash : ℕ) (g : SetupGrant)
    → replace_password_setup_grant input db ≡ ok (id, later)
    → find_grant hash db.grants ≡ some g
    → g.identity_id ≡ input.identity_id
    → (calls : List Call) (earlier : ExchangeInput) → earlier.grant_token_hash ≡ hash
    → exchange_password_setup_grant earlier (run crypto later calls)
      ≡ ok (none, run crypto later calls)
replaced-never_exchanges crypto input db later id hash g e found owner calls earlier same =
    over-refused crypto calls earlier hash later
      (replace-ends input hash db later id g e found owner) same
