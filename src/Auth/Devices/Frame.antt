-- ===== src/Auth/Devices/Frame.antt =====
-- The operations on device authorizations leave the session tables alone.
use sme_data_center.Common.{arith}
use sme_data_center.Auth.Schema.{Db, create_device}
use sme_data_center.Auth.Sessions.Family.{Untouched}
use sme_data_center.Auth.History.{after, after_plain}
use sme_data_center.Auth.Devices.{
  DeviceInput, supersede, create_device_authorization, CompleteInput, complete_found,
  complete_device_authorization, RedeemInput, lapse_device, claim_device, redeem_found,
  redeem_device_authorization,
}

pub create_device-Untouched :
    (input : DeviceInput) (db : Db)
    → Untouched db (after_plain db (create_device_authorization input db))
unfolding create_device_authorization supersede create_device
create_device-Untouched input db = ground arith

pub complete-Untouched :
    (input : CompleteInput) (db : Db)
    → Untouched db (after db (complete_device_authorization input db))
unfolding complete_device_authorization complete_found
complete-Untouched input db = ground arith

pub redeem-Untouched :
    (input : RedeemInput) (db : Db) → Untouched db (redeem_device_authorization input db).1
unfolding redeem_device_authorization redeem_found lapse_device claim_device
redeem-Untouched input db = ground arith
