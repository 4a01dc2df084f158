-- ===== src/Auth/Browser/Tests.antt =====
-- The browser session theorem at the sample database.
use sme_data_center.Common.{ℕ, zero, suc, ◌+◌, Option, none, some, [], ◌∷◌, ◌≡◌, ◌↔◌, Text, refl}
use sme_data_center.Auth.Schema.{BrowserSession, Db, ok}
use sme_data_center.Auth.Schema.Sample.{owner, sample}
use sme_data_center.Auth.Browser.{
  principal_of, find_row, find_browser, accept_found, strip_prefix, is_secret, authenticate_hashed,
  authenticate_browser,
}
use sme_data_center.Auth.Browser.Accepted.{IsSignedIn}
use sme_data_center.Auth.Browser.Secrets.{IsSecret, authenticate_browser_iff}

abbrev row : BrowserSession
row = record {
  id = 80;
  identity_id = 5;
  employee_id = 7;
  org_id = 3;
  secret_hash = 3403;
  credential_fingerprint = 9;
  expires_at = 9000;
  revoked_at = none;
}

abbrev signed_in : Db
signed_in = record sample { browser_sessions = row ∷ [] }

-- The digest is the sum of the units here.
abbrev digest : Text → ℕ
digest [] = 0
digest (c ∷ cs) = c + digest cs

abbrev secret : Text
secret = 101 ∷ 104 ∷ 95 ∷ 98 ∷ 115 ∷ 95 ∷ forty_three 43
  where
    forty_three : ℕ → Text
    forty_three zero = []
    forty_three (suc n) = 65 ∷ forty_three n

accepted_here :
    authenticate_browser (λ h. h) digest (some secret) 500 signed_in
    ≡ ok (some (principal_of row owner))
unfolding authenticate_browser is_secret strip_prefix authenticate_hashed find_browser find_row
    accept_found
accepted_here = refl

authenticate_browser_iff_example :
    (authenticate_browser (λ h. h) digest (some secret) 500 signed_in
      ≡ ok (some (principal_of row owner)))
    ↔ ((s : Text) × (◌≡◌ {A = Option Text} (some secret) (some s))
        × IsSecret s
        × IsSignedIn (λ h. h) (digest s) 500 signed_in (principal_of row owner))
authenticate_browser_iff_example =
    authenticate_browser_iff (λ h. h) digest (some secret) 500 signed_in (principal_of row owner)
