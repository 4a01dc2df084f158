-- ===== src/Auth/Devices/Apart.antt =====
-- The operations on device authorizations leave the setup grants as they are.
use sme_data_center.Common.{◌≡◌, arith}
use sme_data_center.Auth.Schema.{Db, create_device}
use sme_data_center.Auth.History.{after, after_plain}
use sme_data_center.Auth.Devices.{
  DeviceInput, supersede, create_device_authorization, CompleteInput, complete_found,
  complete_device_authorization, RedeemInput, lapse_device, claim_device, redeem_found,
  redeem_device_authorization,
}

pub issue-grants :
    (input : DeviceInput) (db : Db)
    → (after_plain db (create_device_authorization input db)).grants ≡ db.grants
unfolding create_device_authorization supersede create_device
issue-grants input db = ground arith

pub complete-grants :
    (input : CompleteInput) (db : Db)
    → (after db (complete_device_authorization input db)).grants ≡ db.grants
unfolding complete_device_authorization complete_found
complete-grants input db = ground arith

pub redeem-grants :
    (input : RedeemInput) (db : Db) → (redeem_device_authorization input db).1.grants ≡ db.grants
unfolding redeem_device_authorization redeem_found lapse_device claim_device
redeem-grants input db = ground arith
