-- ===== src/Auth/Setup/Apart.antt =====
-- Password setup leaves the device authorizations as they are, and a new password the setup grants.
use sme_data_center.Common.{◌≡◌, refl, arith, ◌∙◌}
use sme_data_center.Auth.Schema.{LoginIdentity, Purpose, Db, create_grant, create_setup_session}
use sme_data_center.Auth.Sessions.Apart.{IsApart, revoke_sessions-IsApart, revoke_browser-IsApart}
use sme_data_center.Auth.Setup.Frame.{consume_cases}
use sme_data_center.Auth.History.{after}
use sme_data_center.Auth.Setup.{
  GrantInput, close_setup, replace_password_setup_grant, ExchangeInput, open_setup_session,
  exchange_found, exchange_password_setup_grant, ConsumeInput, consumed_db, reset_password,
  consume_password_setup_session,
}

pub replace-devices :
    (input : GrantInput) (db : Db)
    → (after db (replace_password_setup_grant input db)).devices ≡ db.devices
unfolding replace_password_setup_grant close_setup create_grant
replace-devices input db = ground arith

pub exchange-devices :
    (input : ExchangeInput) (db : Db)
    → (after db (exchange_password_setup_grant input db)).devices ≡ db.devices
unfolding exchange_password_setup_grant exchange_found open_setup_session create_setup_session
exchange-devices input db = ground arith

reset-IsApart :
    (input : ConsumeInput) (purpose : Purpose) (i : LoginIdentity) (db : Db)
    → IsApart db (reset_password input purpose i db)
unfolding reset_password
reset-IsApart input purpose i db =
    let signed_out = revoke_browser-IsApart i.id input.now _ in
    let revoked = revoke_sessions-IsApart _ _ _ _ _ _ in
    record {
      devices = revoked.devices ∙ signed_out.devices;
      grants = revoked.grants ∙ signed_out.grants;
    }

pub consume-IsApart :
    (input : ConsumeInput) (db : Db)
    → IsApart db (after db (consume_password_setup_session input db))
consume-IsApart input db =
    consume_cases (IsApart db) input db (record { devices = refl; grants = refl })
      (λ s. record { devices = refl; grants = refl })
      λ s purpose i.
        let set = reset-IsApart input purpose i (consumed_db input s db) in
        record { devices = set.devices; grants = set.grants }
