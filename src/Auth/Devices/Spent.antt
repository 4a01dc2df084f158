-- ===== src/Auth/Devices/Spent.antt =====
-- The row of a redeemed device authorization under the device operations of
-- prisma-auth-repository.ts.
use sme_data_center.Common.{
  ℕ, Bool, true, false, ◌||◌, some, List, ◌∷◌, ◌==◌, ◌≡◌, ◌≢◌, refl, arith, find, find_holds,
  update_many, is_some, if◌then◌else◌, Option-cases, inl, inr, ◌∙◌, ap, find-update_many,
  find-none_passes, ==_refl,
}
use sme_data_center.Auth.Schema.{DeviceAuthorization, Db, Result, ok, err, create_device}
use sme_data_center.Auth.Schema.Creation.{create_device-eq-ok}
use sme_data_center.Auth.History.{after, after_plain, Lands-ok, Lands-any, Lands-option, of-Lands}
use sme_data_center.Auth.Devices.{
  DeviceInput, create_device_authorization, supersede, is_superseded, cancel, new_device,
  CompleteInput, complete_found, complete_device_authorization, is_completable, complete,
  RedeemInput, redeemed, redeem_found, redeem_device_authorization, lapse_device, claim_device,
  is_pending_row, lapse, is_redeemable, redeem, find_by_device_code,
}

-- The row of the device code is redeemed.
pub record IsSpent (code : ℕ) (devices : List DeviceAuthorization) : Type 0 where
  pub row : DeviceAuthorization
  pub found : find (λ (d : DeviceAuthorization). d.device_code_hash == code) devices ≡ some row
  pub spent : is_some row.redeemed_at ≡ true

-- An update that keeps the codes, and a redemption where there is one, keeps a code spent.
update-IsSpent :
    (code : ℕ) (p : DeviceAuthorization → Bool) (f : DeviceAuthorization → DeviceAuthorization)
    (xs : List DeviceAuthorization)
    → ((d : DeviceAuthorization) → (f d).device_code_hash ≡ d.device_code_hash)
    → ((d : DeviceAuthorization) → is_some d.redeemed_at ≡ true → is_some (f d).redeemed_at ≡ true)
    → IsSpent code xs
    → IsSpent code (update_many p f xs)
update-IsSpent code p f xs same keep h = record {
  row = if p h.row then f h.row else h.row;
  found =
      find-update_many (λ (d : DeviceAuthorization). d.device_code_hash == code) p f xs h.row
        (λ d. ap (λ k. k == code) (same d)) h.found;
  spent = ground (arith, keep h.row, h.spent);
}

-- A new row has a code that no row has.
create-IsSpent :
    (code : ℕ) (d : DeviceAuthorization) (db later : Db)
    → create_device d db ≡ ok later
    → IsSpent code db.devices
    → IsSpent code later.devices
create-IsSpent code d db later e h =
    let (free, same) = create_device-eq-ok d db e in
    let other =
      differs h.row (find-none_passes _ _ db.devices h.row free h.found)
        (find_holds _ db.devices h.row h.found) in
    rw same (record { row = h.row; found = skipped other ∙ h.found; spent = h.spent })
  where
    differs :
        (r : DeviceAuthorization)
        → (r.id == d.id
            || r.device_code_hash == d.device_code_hash
            || r.user_code_hash == d.user_code_hash)
          ≡ false
        → (r.device_code_hash == code) ≡ true
        → (d.device_code_hash == code) ≡ false
    differs r free same = ground arith

    skipped :
        (d.device_code_hash == code) ≡ false
        → find (λ (r : DeviceAuthorization). r.device_code_hash == code) (d ∷ db.devices)
          ≡ find (λ (r : DeviceAuthorization). r.device_code_hash == code) db.devices
    skipped other = ground arith

supersede_cases :
    (P : List DeviceAuthorization → Type 0) (input : DeviceInput) (db : Db)
    → P (update_many (is_superseded input) (cancel input.now) db.devices)
    → P (supersede input db).devices
unfolding supersede
supersede_cases P input db h = ground arith

issue_cases :
    (P : List DeviceAuthorization → Type 0) (input : DeviceInput) (db : Db) (r : Result Db)
    → create_device (new_device input) (supersede input db) ≡ r
    → P (after_plain db r).devices
    → P (after_plain db (create_device_authorization input db)).devices
unfolding create_device_authorization
issue_cases P input db (ok later) e h = rw (e, create_device_authorization) h
issue_cases P input db (err x) e h = rw (e, create_device_authorization) h

pub issue-IsSpent :
    (code : ℕ) (input : DeviceInput) (db : Db)
    → IsSpent code db.devices
    → IsSpent code (after_plain db (create_device_authorization input db)).devices
issue-IsSpent code input db h =
    issue_cases (IsSpent code) input db _ refl
      (go (create_device (new_device input) (supersede input db)) refl)
  where
    go :
        (r : Result Db)
        → create_device (new_device input) (supersede input db) ≡ r
        → IsSpent code (after_plain db r).devices
    go (err x) e = h
    go (ok later) e = create-IsSpent code (new_device input) (supersede input db) later e (
        supersede_cases (IsSpent code) input db (
          update-IsSpent code (is_superseded input) (cancel input.now) db.devices (λ _. refl)
            (λ _ k. k) h))

complete_cases :
    (P : List DeviceAuthorization → Type 0) (input : CompleteInput) (d : DeviceAuthorization)
    (db : Db)
    → P db.devices
    → P (update_many (is_completable d.id input.now) (complete input) db.devices)
    → P (after db (complete_found input d db)).devices
unfolding complete_found
complete_cases P input d db a b = ground arith

redeem_cases :
    (P : List DeviceAuthorization → Type 0) (input : RedeemInput) (d : DeviceAuthorization)
    (db : Db)
    → P db.devices
    → P (update_many (is_pending_row d.id) lapse db.devices)
    → P (update_many (is_redeemable d.id input.now) (redeem input.now) db.devices)
    → P (redeem_found input d db).1.devices
unfolding redeem_found lapse_device claim_device
redeem_cases P input d db a b c = ground arith

pub complete-IsSpent :
    (code : ℕ) (input : CompleteInput) (db : Db)
    → IsSpent code db.devices
    → IsSpent code (after db (complete_device_authorization input db)).devices
unfolding complete_device_authorization
complete-IsSpent code input db h = of-Lands P db (complete_device_authorization input db) (
    Lands-option P db
      (find (λ (d : DeviceAuthorization). d.user_code_hash == input.user_code_hash) db.devices) _ _
      (λ _. Lands-ok P db false db h)
      (λ d _. Lands-any P db _ (
        complete_cases (IsSpent code) input d db h (
          update-IsSpent code (is_completable d.id input.now) (complete input) db.devices
            (λ _. refl) (λ _ k. k) h))))
  where
    P : Db → Type 0
    P d = IsSpent code d.devices

pub redeem-IsSpent :
    (code : ℕ) (input : RedeemInput) (db : Db)
    → IsSpent code db.devices
    → IsSpent code (redeem_device_authorization input db).1.devices
unfolding redeem_device_authorization
redeem-IsSpent code input db h =
    elim (Option-cases (find_by_device_code input.device_code_hash db)) [
      | inl missing ↦ rw (missing, redeem_device_authorization) h
      | inr (d, found) ↦
          rw (found, redeem_device_authorization)
            (redeem_cases (IsSpent code) input d db h
              (update-IsSpent code (is_pending_row d.id) lapse db.devices (λ _. refl) (λ _ k. k) h)
              (update-IsSpent code (is_redeemable d.id input.now) (redeem input.now) db.devices
                (λ _. refl) (λ _ k. ground arith) h))
    ]

-- A redemption that succeeds has found the row, and has marked it.
redeemed_found :
    (input : RedeemInput) (d : DeviceAuthorization) (x y z : ℕ) (db later : Db)
    → redeem_found input d db ≡ (redeemed x y z, later)
    → (is_redeemable d.id input.now d ≡ true)
      × (later.devices ≡ update_many (is_redeemable d.id input.now) (redeem input.now) db.devices)
unfolding redeem_found claim_device
redeemed_found input d x y z db later e = (ground (arith, ==_refl d.id), ground arith)

pub redeem-marks :
    (input : RedeemInput) (x y z : ℕ) (db later : Db)
    → redeem_device_authorization input db ≡ (redeemed x y z, later)
    → IsSpent input.device_code_hash later.devices
unfolding redeem_device_authorization
redeem-marks input x y z db later e =
    elim (Option-cases (find_by_device_code input.device_code_hash db)) [
      | inl missing ↦ cc (rw (missing, redeem_device_authorization) at e)
      | inr (d, found) ↦
          let (could, marked) =
            redeemed_found input d x y z db later (rw (found, redeem_device_authorization) at e) in
          record {
            row = redeem input.now d;
            found = rw marked (
                find-update_many _ (is_redeemable d.id input.now) (redeem input.now) db.devices d
                  (λ _. refl) found
                ∙ ap some (hit d could));
            spent = refl;
          }
    ]
  where
    hit :
        (d : DeviceAuthorization)
        → is_redeemable d.id input.now d ≡ true
        → (if is_redeemable d.id input.now d then redeem input.now d else d) ≡ redeem input.now d
    hit d could = ground arith

-- A device code that is spent redeems nothing.
pub spent-ne-redeemed :
    (input : RedeemInput) (x y z : ℕ) (db later : Db)
    → IsSpent input.device_code_hash db.devices
    → redeem_device_authorization input db ≢ (redeemed x y z, later)
unfolding redeem_device_authorization
spent-ne-redeemed input x y z db later h e =
    let (could, _) =
      redeemed_found input h.row x y z db later (rw (h.found, redeem_device_authorization) at e) in
    refuted h.row h.spent could
  where
    refuted :
        (d : DeviceAuthorization)
        → is_some d.redeemed_at ≡ true
        → is_redeemable d.id input.now d ≡ true
        → ⊥
    refuted d s c = ground arith
