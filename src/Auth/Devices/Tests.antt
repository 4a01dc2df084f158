-- ===== src/Auth/Devices/Tests.antt =====
-- The device theorem at the sample database.
use sme_data_center.Common.{none, [], ◌∷◌, ◌≡◌, ◌≢◌, refl, ◌==◌}
use sme_data_center.Auth.Schema.{Db}
use sme_data_center.Auth.Schema.Sample.{device, sample}
use sme_data_center.Auth.Login.{Crypto}
use sme_data_center.Auth.History.{prunes_events, run}
use sme_data_center.Auth.Devices.{
  RedeemInput, redeem, redeemed, claim_device, redeem_found, redeem_device_authorization,
}
use sme_data_center.Auth.Devices.Once.{redeemed-never_again}

abbrev crypto : Crypto
crypto = record { verify = λ password hash. password == hash; fingerprint = λ h. h }

abbrev input : RedeemInput
input = record { device_code_hash = 42; client_id = 41; now = 200; audit = none }

abbrev redeemed_db : Db
redeemed_db = record sample { devices = redeem 200 device ∷ [] }

redeems_here : redeem_device_authorization input sample ≡ (redeemed 5 7 3, redeemed_db)
unfolding redeem_device_authorization redeem_found claim_device
redeems_here = refl

redeemed-never_again_example :
    redeem_device_authorization input (run crypto redeemed_db (prunes_events 50 ∷ []))
    ≢ (redeemed 5 7 3, sample)
redeemed-never_again_example =
    redeemed-never_again crypto input 5 7 3 sample redeemed_db redeems_here (prunes_events 50 ∷ [])
      input refl 5 7 3 sample
