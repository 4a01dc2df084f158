-- ===== src/Auth/Schema/Creation.antt =====
-- A creation that succeeds adds its row, and no row had one of its unique keys.
use sme_data_center.Common.{
  Option, none, some, Bool, true, false, ◌&&◌, ◌||◌, ◌∷◌, ◌==◌, ◌≡◌, refl, arith, any,
  if◌then◌else◌,
}
use sme_data_center.Auth.Schema.{
  AuthSession, DurableCredential, AccessToken, DeviceAuthorization, SetupGrant, SetupSession,
  BrowserSession, Db, Result, ok, err, ◌>>=◌, or_missing, key_taken, create_session,
  create_credential, create_token, create_device, create_grant, create_setup_session,
  create_browser_session,
}

created :
    (taken : Bool) (after later : Db)
    → (if taken then err key_taken else ok after) ≡ ok later
    → (taken ≡ false) × (later ≡ after)
created true after later e = cc
created false after later e = (refl, ground arith)

pub create_session-eq-ok :
    (s : AuthSession) (db : Db) {later : Db}
    → create_session s db ≡ ok later
    → (any (λ (r : AuthSession). r.id == s.id) db.sessions ≡ false)
      × (later ≡ record db { sessions = s ∷ db.sessions })
unfolding create_session
create_session-eq-ok s db e = created _ _ _ e

abbrev pub clashes : DurableCredential → DurableCredential → Bool
clashes c r =
    r.id == c.id
    || r.credential_hash == c.credential_hash
    || (r.session_id == c.session_id && r.generation == c.generation)

pub create_credential-eq-ok :
    (c : DurableCredential) (db : Db) {later : Db}
    → create_credential c db ≡ ok later
    → (any (clashes c) db.credentials ≡ false)
      × (later ≡ record db { credentials = c ∷ db.credentials })
unfolding create_credential
create_credential-eq-ok c db e = created _ _ _ e

pub create_token-eq-ok :
    (t : AccessToken) (db : Db) {later : Db}
    → create_token t db ≡ ok later
    → (any (λ (r : AccessToken). r.id == t.id || r.token_hash == t.token_hash) db.tokens ≡ false)
      × (later ≡ record db { tokens = t ∷ db.tokens })
unfolding create_token
create_token-eq-ok t db e = created _ _ _ e

pub create_device-eq-ok :
    (d : DeviceAuthorization) (db : Db) {later : Db}
    → create_device d db ≡ ok later
    → (any
          (λ (r : DeviceAuthorization).
            r.id == d.id
            || r.device_code_hash == d.device_code_hash
            || r.user_code_hash == d.user_code_hash)
          db.devices
        ≡ false)
      × (later ≡ record db { devices = d ∷ db.devices })
unfolding create_device
create_device-eq-ok d db e = created _ _ _ e

pub create_grant-eq-ok :
    (g : SetupGrant) (db : Db) {later : Db}
    → create_grant g db ≡ ok later
    → (any (λ (r : SetupGrant). r.id == g.id || r.token_hash == g.token_hash) db.grants ≡ false)
      × (later ≡ record db { grants = g ∷ db.grants })
unfolding create_grant
create_grant-eq-ok g db e = created _ _ _ e

pub create_setup_session-eq-ok :
    (s : SetupSession) (db : Db) {later : Db}
    → create_setup_session s db ≡ ok later
    → (any
          (λ (r : SetupSession). r.id == s.id || r.session_hash == s.session_hash)
          db.setup_sessions
        ≡ false)
      × (later ≡ record db { setup_sessions = s ∷ db.setup_sessions })
unfolding create_setup_session
create_setup_session-eq-ok s db e = created _ _ _ e

pub create_browser_session-eq-ok :
    (s : BrowserSession) (db : Db) {later : Db}
    → create_browser_session s db ≡ ok later
    → (any
          (λ (r : BrowserSession). r.id == s.id || r.secret_hash == s.secret_hash)
          db.browser_sessions
        ≡ false)
      × (later ≡ record db { browser_sessions = s ∷ db.browser_sessions })
unfolding create_browser_session
create_browser_session-eq-ok s db e = created _ _ _ e

-- A chain that succeeds has succeeded in its first part.
pub bind-eq-ok :
    {A B : Type 0} (m : Result A) (f : A → Result B) (b : B)
    → (m >>= f) ≡ ok b
    → (a : A) × (m ≡ ok a) × (f a ≡ ok b)
bind-eq-ok (ok a) f b e = (a, refl, e)
bind-eq-ok (err x) f b e = cc

pub or_missing-eq-ok : {A : Type 0} (o : Option A) (a : A) → or_missing o ≡ ok a → o ≡ some a
or_missing-eq-ok none a e = cc
or_missing-eq-ok (some b) a e = ground arith

pub ok-injective : {A : Type 0} (a b : A) → ◌≡◌ {A = Result A} (ok a) (ok b) → a ≡ b
ok-injective a b e = ground arith
