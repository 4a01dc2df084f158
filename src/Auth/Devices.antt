-- ===== src/Auth/Devices.antt =====
-- Device authorizations of prisma-auth-repository.ts: issued, completed by a signed-in account,
-- and redeemed once for a session.
-- `complete_found` and `redeem_found` start from the row that the transaction has read, so that
-- another transaction's writes may stand between the reading and the writing.
pub mod Frame
pub mod Apart
pub mod Spent
pub mod Once
mod Tests
use sme_data_center.Common.{
  ℕ, Bool, true, false, not, ◌&&◌, ◌||◌, if◌then◌else◌, Option, none, some, List, [], ◌∷◌, ◌==◌,
  ltb, leb, find, update_many, count, is_none, is_some,
}
use sme_data_center.Auth.Schema.{
  Reason, superseded, on_instance, pending_expired, DeviceStatus, pending, completed, lapsed,
  cancelled, DeviceAuthorization, EventType, device_authorization_issued,
  device_authorization_completed, device_authorization_expired, device_authorization_revoked,
  succeeded, Audit, SecurityEvent, Db, Result, ok, err, ◌>>=◌, or_missing, is_pending, is_completed,
  log, create_device,
}
use sme_data_center.Auth.Sessions.{usable_identity}

pub record DeviceInput : Type 0 where
  pub device_code_hash : ℕ
  pub user_code_hash : ℕ
  pub client_id : ℕ
  pub instance_name : ℕ
  pub instance_hostname : ℕ
  pub expires_at : ℕ
  pub now : ℕ
  pub audit : Option Audit
  pub new_device_id : ℕ

abbrev pub device_event : EventType → Option Reason → Option Audit → ℕ → SecurityEvent
device_event event_type reason audit now = record {
  event_type = event_type;
  outcome = succeeded;
  reason = reason;
  org_id = none;
  identity_id = none;
  employee_id = none;
  session_id = none;
  audit = audit;
  created_at = now;
}

-- A pending authorization of the same client on the same instance.
abbrev pub is_superseded : DeviceInput → DeviceAuthorization → Bool
is_superseded input d =
    d.client_id == input.client_id
    && d.instance_name == input.instance_name
    && d.instance_hostname == input.instance_hostname
    && is_pending d.status

abbrev pub cancel : ℕ → DeviceAuthorization → DeviceAuthorization
cancel now d = record d { status = cancelled; revoked_at = some now }

abbrev pub new_device : DeviceInput → DeviceAuthorization
new_device input = record {
  id = input.new_device_id;
  client_id = input.client_id;
  device_code_hash = input.device_code_hash;
  user_code_hash = input.user_code_hash;
  status = pending;
  instance_name = input.instance_name;
  instance_hostname = input.instance_hostname;
  identity_id = none;
  employee_id = none;
  org_id = none;
  expires_at = input.expires_at;
  completed_at = none;
  redeemed_at = none;
  revoked_at = none;
}

pub supersede : DeviceInput → Db → Db
supersede input db =
    let after = record db {
      devices = update_many (is_superseded input) (cancel input.now) db.devices;
    } in
    if count (is_superseded input) db.devices == 0
    then after
    else log
        (device_event device_authorization_revoked
          (some (superseded input.instance_name input.instance_hostname)) input.audit input.now)
        after

pub create_device_authorization : DeviceInput → Db → Result Db
create_device_authorization input db = do
  created ← create_device (new_device input) (supersede input db)
  ok (
      log
        (device_event device_authorization_issued
          (some (on_instance input.instance_name input.instance_hostname)) input.audit input.now)
        created)

abbrev pub find_by_user_code : ℕ → Db → Option DeviceAuthorization
find_by_user_code hash db = find (λ (d : DeviceAuthorization). d.user_code_hash == hash) db.devices

abbrev pub find_by_device_code : ℕ → Db → Option DeviceAuthorization
find_by_device_code hash db =
    find (λ (d : DeviceAuthorization). d.device_code_hash == hash) db.devices

-- What `findDeviceAuthorizationByUserCode` shows: a pending row past its time reads as expired.
pub shown_status : ℕ → DeviceAuthorization → DeviceStatus
shown_status now d = if is_pending d.status && leb d.expires_at now then lapsed else d.status

pub find_device_by_user_code : ℕ → ℕ → Db → Option (DeviceStatus × ℕ × ℕ)
unfolding shown_status
find_device_by_user_code user_code_hash now db = elim (find_by_user_code user_code_hash db) [
  | none ↦ none
  | some d ↦ some (shown_status now d, d.instance_name, d.instance_hostname)
]

pub record CompleteInput : Type 0 where
  pub user_code_hash : ℕ
  pub identity_id : ℕ
  pub employee_id : ℕ
  pub org_id : ℕ
  pub now : ℕ
  pub audit : Option Audit

abbrev pub is_completable : ℕ → ℕ → DeviceAuthorization → Bool
is_completable id now d = d.id == id && is_pending d.status && ltb now d.expires_at

abbrev pub complete : CompleteInput → DeviceAuthorization → DeviceAuthorization
complete input d = record d {
  status = completed;
  identity_id = some input.identity_id;
  employee_id = some input.employee_id;
  org_id = some input.org_id;
  completed_at = some input.now;
}

abbrev pub completed_event : CompleteInput → SecurityEvent
completed_event input =
    record (device_event device_authorization_completed none input.audit input.now) {
      org_id = some input.org_id;
      identity_id = some input.identity_id;
      employee_id = some input.employee_id;
    }

pub complete_found : CompleteInput → DeviceAuthorization → Db → Result (Bool × Db)
complete_found input d db =
    if not (is_pending d.status) || leb d.expires_at input.now then ok (false, db) else do
      usable ← usable_identity input.identity_id input.employee_id input.org_id db
      let after = record db {
        devices = update_many (is_completable d.id input.now) (complete input) db.devices;
      }
      ok (
          if not usable
          then (false, db)
          else if count (is_completable d.id input.now) db.devices == 1
          then (true, log (completed_event input) after)
          else (false, after))

pub complete_device_authorization : CompleteInput → Db → Result (Bool × Db)
complete_device_authorization input db = elim (find_by_user_code input.user_code_hash db) [
  | none ↦ ok (false, db)
  | some d ↦ complete_found input d db
]

pub record RedeemInput : Type 0 where
  pub device_code_hash : ℕ
  pub client_id : ℕ
  pub now : ℕ
  pub audit : Option Audit

pub data Redemption : Type 0 where
  redeemed : ℕ → ℕ → ℕ → Redemption
  authorization_pending has_expired invalid : Redemption

abbrev pub is_pending_row : ℕ → DeviceAuthorization → Bool
is_pending_row id d = d.id == id && is_pending d.status

abbrev pub lapse : DeviceAuthorization → DeviceAuthorization
lapse d = record d { status = lapsed }

pub lapse_device : RedeemInput → DeviceAuthorization → Db → Db
lapse_device input d db =
    let after = record db { devices = update_many (is_pending_row d.id) lapse db.devices } in
    if count (is_pending_row d.id) db.devices == 1
    then log
        (device_event device_authorization_expired (some pending_expired) input.audit input.now)
        after
    else after

abbrev pub is_redeemable : ℕ → ℕ → DeviceAuthorization → Bool
is_redeemable id now d =
    d.id == id && is_completed d.status && is_none d.redeemed_at && ltb now d.expires_at

abbrev pub redeem : ℕ → DeviceAuthorization → DeviceAuthorization
redeem now d = record d { redeemed_at = some now }

-- The account of a completed row, where all three parts are there.
abbrev pub account_of : DeviceAuthorization → Redemption
account_of d = elim d.identity_id [
  | none ↦ invalid
  | some identity ↦ elim d.employee_id [
    | none ↦ invalid
    | some employee ↦ elim d.org_id [ none ↦ invalid | some org ↦ redeemed identity employee org ]
  ]
]

pub claim_device : RedeemInput → DeviceAuthorization → Db → Redemption × Db
claim_device input d db =
    let after = record db {
      devices = update_many (is_redeemable d.id input.now) (redeem input.now) db.devices;
    } in
    if is_some d.redeemed_at || is_none d.identity_id || is_none d.employee_id || is_none d.org_id
    then (invalid, db)
    else if count (is_redeemable d.id input.now) db.devices == 1
    then (account_of d, after)
    else (invalid, after)

pub redeem_found : RedeemInput → DeviceAuthorization → Db → Redemption × Db
redeem_found input d db =
    if not (d.client_id == input.client_id) then (invalid, db) else elim d.status [
      | pending ↦
          if leb d.expires_at input.now
          then (has_expired, lapse_device input d db)
          else (authorization_pending, db)
      | completed ↦
          if leb d.expires_at input.now then (has_expired, db) else claim_device input d db
      | lapsed ↦ (invalid, db)
      | cancelled ↦ (invalid, db)
    ]

pub redeem_device_authorization : RedeemInput → Db → Redemption × Db
redeem_device_authorization input db = elim (find_by_device_code input.device_code_hash db) [
  | none ↦ (invalid, db)
  | some d ↦ redeem_found input d db
]
