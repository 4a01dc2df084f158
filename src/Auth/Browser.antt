-- ===== src/Auth/Browser.antt =====
-- Browser sessions: prisma-browser-session.ts, and the acceptance of browser-session.ts.
pub mod Frame
pub mod Apart
pub mod Accepted
pub mod Secrets
mod Tests
use sme_data_center.Common.{
  ℕ, Bool, true, false, not, ◌&&◌, ◌||◌, if◌then◌else◌, Option, none, some, List, [], ◌∷◌, ◌==◌,
  leb, find, update_many, count, is_none, is_some, all, length, Text,
}
use sme_data_center.Auth.Schema.{
  LoginIdentity, Employee, BrowserSession, Role, browser_sign_in, browser_logout, succeeded,
  session_created, session_revoked, Audit, SecurityEvent, Db, Result, ok, err, ◌>>=◌, or_missing,
  log, create_browser_session,
}
use sme_data_center.Auth.Sessions.{find_identity, find_employee, is_usable}

pub record BrowserInput : Type 0 where
  pub identity_id : ℕ
  pub employee_id : ℕ
  pub org_id : ℕ
  pub secret_hash : ℕ
  pub credential_fingerprint : ℕ
  pub expires_at : ℕ
  pub now : ℕ
  pub audit : Option Audit
  pub new_browser_session_id : ℕ

abbrev pub new_browser_session : BrowserInput → BrowserSession
new_browser_session input = record {
  id = input.new_browser_session_id;
  identity_id = input.identity_id;
  employee_id = input.employee_id;
  org_id = input.org_id;
  secret_hash = input.secret_hash;
  credential_fingerprint = input.credential_fingerprint;
  expires_at = input.expires_at;
  revoked_at = none;
}

abbrev pub sign_in_event : BrowserInput → SecurityEvent
sign_in_event input = record {
  event_type = session_created;
  outcome = succeeded;
  reason = some browser_sign_in;
  org_id = some input.org_id;
  identity_id = some input.identity_id;
  employee_id = some input.employee_id;
  session_id = none;
  audit = input.audit;
  created_at = input.now;
}

-- `hashOpaqueSecret(passwordHash) === fingerprint`, with a password set.
abbrev pub has_fingerprint : (ℕ → ℕ) → Option ℕ → ℕ → Bool
has_fingerprint hash none fingerprint = false
has_fingerprint hash (some password_hash) fingerprint = hash password_hash == fingerprint

-- SHA-256 is not this program's: `hash` is `hashOpaqueSecret`.
pub create_browser : (ℕ → ℕ) → BrowserInput → Db → Result (Bool × Db)
create_browser hash input db = elim (find_identity input.identity_id db) [
  | none ↦ ok (false, db)
  | some i ↦ do
    e ← or_missing (find_employee i.employee_id db)
    if is_usable input.employee_id input.org_id i e
          && has_fingerprint hash i.password_hash input.credential_fingerprint
        then (do
          created ← create_browser_session (new_browser_session input) db
          ok (true, log (sign_in_event input) created))
        else ok (false, db)
]

pub record Principal : Type 0 where
  pub identity_id : ℕ
  pub id : ℕ
  pub org_id : ℕ
  pub organization_name : ℕ
  pub display_name : ℕ
  pub email : ℕ
  pub role : Role
  pub clearance : ℕ
  pub disabled : Bool

pub record FoundBrowser : Type 0 where
  pub principal : Principal
  pub expires_at : ℕ
  pub revoked_at : Option ℕ
  pub credential_fingerprint : ℕ
  pub current_credential_fingerprint : ℕ

abbrev pub principal_of : BrowserSession → Employee → Principal
principal_of b e = record {
  identity_id = b.identity_id;
  id = e.id;
  org_id = e.org_id;
  organization_name = e.organization_name;
  display_name = e.display_name;
  email = e.email;
  role = e.role;
  clearance = e.clearance;
  disabled = e.disabled;
}

pub find_row : (ℕ → ℕ) → BrowserSession → LoginIdentity → Employee → Option FoundBrowser
find_row hash b i e = elim i.password_hash [
  | none ↦ none
  | some password_hash ↦
      if i.disabled
        || e.disabled
        || not (b.identity_id == i.id)
        || not (b.employee_id == i.employee_id)
        || not (b.org_id == i.org_id)
        || not (b.org_id == e.org_id)
      then none
      else some (record {
        principal = principal_of b e;
        expires_at = b.expires_at;
        revoked_at = b.revoked_at;
        credential_fingerprint = b.credential_fingerprint;
        current_credential_fingerprint = hash password_hash;
      })
]

pub find_browser : (ℕ → ℕ) → ℕ → Db → Result (Option FoundBrowser)
find_browser hash secret_hash db =
    elim (find (λ (b : BrowserSession). b.secret_hash == secret_hash) db.browser_sessions) [
      | none ↦ ok none
      | some b ↦ do
        i ← or_missing (find_identity b.identity_id db)
        e ← or_missing (find_employee i.employee_id db)
        ok (find_row hash b i e)
    ]

-- `BrowserSessions.authenticate`, of the row that was found.
pub accept_found : ℕ → Option FoundBrowser → Option Principal
accept_found now none = none
accept_found now (some f) =
    if is_some f.revoked_at
      || leb f.expires_at now
      || f.principal.disabled
      || not (f.credential_fingerprint == f.current_credential_fingerprint)
    then none
    else some f.principal

-- `/^eh_bs_[A-Za-z0-9_-]{43}$/`.
abbrev pub secret_prefix : Text
secret_prefix = 101 ∷ 104 ∷ 95 ∷ 98 ∷ 115 ∷ 95 ∷ []

abbrev pub is_url_unit : ℕ → Bool
is_url_unit c =
    (leb 65 c && leb c 90)
    || (leb 97 c && leb c 122)
    || (leb 48 c && leb c 57)
    || c == 95
    || c == 45

-- What follows a prefix.
pub strip_prefix : Text → Text → Option Text
strip_prefix [] s = some s
strip_prefix (p ∷ ps) [] = none
strip_prefix (p ∷ ps) (c ∷ cs) = let rest = strip_prefix ps cs in if p == c then rest else none

pub is_secret : Text → Bool
is_secret s = elim (strip_prefix secret_prefix s) [
  | none ↦ false
  | some rest ↦ length rest == 43 && all is_url_unit rest
]

-- From the hash of the secret.
pub authenticate_hashed : (ℕ → ℕ) → ℕ → ℕ → Db → Result (Option Principal)
authenticate_hashed hash secret_hash now db = do
  found ← find_browser hash secret_hash db
  ok (accept_found now found)

-- `BrowserSessions.authenticate`; `digest` is `hashOpaqueSecret` on the text of a secret.
pub authenticate_browser : (ℕ → ℕ) → (Text → ℕ) → Option Text → ℕ → Db → Result (Option Principal)
authenticate_browser hash digest secret now db = elim secret [
  | none ↦ ok none
  | some s ↦ if not (is_secret s) then ok none else authenticate_hashed hash (digest s) now db
]

abbrev pub is_revocable : ℕ → BrowserSession → Bool
is_revocable secret_hash b = b.secret_hash == secret_hash && is_none b.revoked_at

abbrev pub revoke_browser_row : ℕ → BrowserSession → BrowserSession
revoke_browser_row now b = record b { revoked_at = some now }

abbrev pub browser_logout_event : BrowserSession → ℕ → SecurityEvent
browser_logout_event b now = record {
  event_type = session_revoked;
  outcome = succeeded;
  reason = some browser_logout;
  org_id = some b.org_id;
  identity_id = some b.identity_id;
  employee_id = some b.employee_id;
  session_id = none;
  audit = none;
  created_at = now;
}

pub revoke_browser : ℕ → ℕ → Db → Db
revoke_browser secret_hash now db =
    let after = record db {
      browser_sessions =
          update_many (is_revocable secret_hash) (revoke_browser_row now) db.browser_sessions;
    } in
    elim (find (λ (b : BrowserSession). b.secret_hash == secret_hash) db.browser_sessions) [
      | none ↦ after
      | some b ↦
          if count (is_revocable secret_hash) db.browser_sessions == 0
          then after
          else log (browser_logout_event b now) after
    ]
