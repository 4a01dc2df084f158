-- ===== src/Auth/Browser/Secrets.antt =====
-- Which secrets of browser sessions authenticate: `BrowserSessions.authenticate` of browser-session.ts.
use sme_data_center.Common.{
  ℕ, ◌≤◌, true, ◌&&◌, Option, none, some, [], ◌∷◌, ◌++◌, ◌==◌, ◌≡◌, ◌↔◌, refl, sym, ap, ◌∙◌, arith,
  leb, length, all, All, all_iff, and_iff, ==_iff, Text, inl, inr, Bool-cases, Option-cases, subst,
}
use sme_data_center.Auth.Schema.{Db, ok}
use sme_data_center.Auth.Browser.{
  Principal, secret_prefix, is_url_unit, strip_prefix, is_secret, authenticate_browser,
}
use sme_data_center.Auth.Browser.Accepted.{IsSignedIn, authenticate_hashed_iff}

-- A letter, a digit, an underscore or a dash.
pub data IsUrlUnit : ℕ → Type 0 where
  upper : {c : ℕ} → 65 ≤ c → c ≤ 90 → IsUrlUnit c
  lower : {c : ℕ} → 97 ≤ c → c ≤ 122 → IsUrlUnit c
  digit : {c : ℕ} → 48 ≤ c → c ≤ 57 → IsUrlUnit c
  underscore : IsUrlUnit 95
  dash : IsUrlUnit 45

-- A prefix and 43 units of base64url.
pub record IsSecret (s : Text) : Type 0 where
  pub rest : Text
  pub prefixed : s ≡ (101 ∷ 104 ∷ 95 ∷ 98 ∷ 115 ∷ 95 ∷ []) ++ rest
  pub long : length rest ≡ 43
  pub url_units : All IsUrlUnit rest

IsUrlUnit_forth : (c : ℕ) → is_url_unit c ≡ true → IsUrlUnit c
IsUrlUnit_forth c h = elim (Bool-cases (leb 65 c && leb c 90)) [
  | inl a ↦ upper (ground arith) (ground arith)
  | inr a ↦ elim (Bool-cases (leb 97 c && leb c 122)) [
    | inl b ↦ lower (ground arith) (ground arith)
    | inr b ↦ elim (Bool-cases (leb 48 c && leb c 57)) [
      | inl d ↦ digit (ground arith) (ground arith)
      | inr d ↦ elim (Bool-cases (c == 95)) [
        | inl e ↦ subst IsUrlUnit (sym ((==_iff c 95).0 e)) underscore
        | inr e ↦ subst IsUrlUnit (sym (ground arith)) dash
      ]
    ]
  ]
]

IsUrlUnit_back : (c : ℕ) → IsUrlUnit c → is_url_unit c ≡ true
IsUrlUnit_back c (upper low high) = ground arith
IsUrlUnit_back c (lower low high) = ground arith
IsUrlUnit_back c (digit low high) = ground arith
IsUrlUnit_back c underscore = refl
IsUrlUnit_back c dash = refl

strip_prefix_forth : (p s rest : Text) → strip_prefix p s ≡ some rest → s ≡ p ++ rest
unfolding strip_prefix
strip_prefix_forth [] s rest h = ground arith
strip_prefix_forth (p ∷ ps) [] rest h = cc
strip_prefix_forth (p ∷ ps) (c ∷ cs) rest h = ground (arith, strip_prefix_forth ps cs rest)

strip_prefix_back : (p rest : Text) → strip_prefix p (p ++ rest) ≡ some rest
unfolding strip_prefix
strip_prefix_back [] rest = refl
strip_prefix_back (p ∷ ps) rest = ground (arith, strip_prefix_back ps rest)

pub is_secret_iff : (s : Text) → (is_secret s ≡ true) ↔ IsSecret s
unfolding is_secret
is_secret_iff s = (to, from)
  where
    parts :
        (rest : Text)
        → ((length rest == 43 && all is_url_unit rest) ≡ true)
          ↔ ((length rest ≡ 43) × All IsUrlUnit rest)
    parts rest =
        and_iff (==_iff (length rest) 43)
          (all_iff is_url_unit IsUrlUnit (λ c. (IsUrlUnit_forth c, IsUrlUnit_back c)) rest)

    to : is_secret s ≡ true → IsSecret s
    to h = elim (Option-cases (strip_prefix secret_prefix s)) [
      | inl other ↦ cc (rw (other, is_secret) at h)
      | inr (rest, found) ↦
          let (long, units) = (parts rest).0 (rw (found, is_secret) at h) in
          record {
            rest = rest;
            prefixed = strip_prefix_forth secret_prefix s rest found;
            long = long;
            url_units = units;
          }
    ]

    from : IsSecret s → is_secret s ≡ true
    from h =
        let found : strip_prefix secret_prefix s ≡ some h.rest =
          ap (strip_prefix secret_prefix) h.prefixed ∙ strip_prefix_back secret_prefix h.rest in
        rw (found, is_secret) ((parts h.rest).1 (h.long, h.url_units))

-- A secret authenticates, as a principal, exactly if it is given, has the form of one, and its digest
-- is that of a browser session that is known, unrevoked and unexpired, whose identity and employee
-- are there and enabled and still belong to the account and organization of the session, and the
-- password set is the one the session was opened with; the principal is that employee.
pub authenticate_browser_iff :
    (hash : ℕ → ℕ) (digest : Text → ℕ) (secret : Option Text) (now : ℕ) (db : Db) (p : Principal)
    → (authenticate_browser hash digest secret now db ≡ ok (some p))
      ↔ ((s : Text) × (secret ≡ some s) × IsSecret s × IsSignedIn hash (digest s) now db p)
unfolding authenticate_browser
authenticate_browser_iff hash digest none now db p = (λ h. cc, λ h. cc h.1)
authenticate_browser_iff hash digest (some s) now db p = (to, from)
  where
    to :
        authenticate_browser hash digest (some s) now db ≡ ok (some p)
        → (t : Text) × (◌≡◌ {A = Option Text} (some s) (some t))
          × IsSecret t
          × IsSignedIn hash (digest t) now db p
    to h = elim (Bool-cases (is_secret s)) [
      | inl is ↦ (
        s,
        refl,
        (is_secret_iff s).0 is,
        (authenticate_hashed_iff hash (digest s) now db p).0 (rw (is, authenticate_browser) at h),
      )
      | inr other ↦ cc (rw (other, authenticate_browser) at h)
    ]

    same : (t : Text) → ◌≡◌ {A = Option Text} (some s) (some t) → t ≡ s
    same t e = ground arith

    from :
        (t : Text) × (◌≡◌ {A = Option Text} (some s) (some t))
          × IsSecret t
          × IsSignedIn hash (digest t) now db p
        → authenticate_browser hash digest (some s) now db ≡ ok (some p)
    from (t, e, is, signed) =
        rw ((is_secret_iff s).1 (subst IsSecret (same t e) is), authenticate_browser)
          ((authenticate_hashed_iff hash (digest s) now db p).1
            (subst (λ k. IsSignedIn hash (digest k) now db p) (same t e) signed))
