-- ===== src/Downloads/Limits/Bounds.antt =====
-- What limits can be loaded, from any environment.
use sme_data_center.Common.{ℕ, ◌≤◌, Option, ◌≡◌, refl, arith, Text}
use sme_data_center.Downloads.Schema.{ℤ}
use sme_data_center.Downloads.Limits.{
  Key, max_partitions_key, max_bytes_key, max_active_per_org_key, max_active_per_requester_key,
  retention_seconds_key, url_ttl_seconds_key, Loaded, loaded, refused, ◌>>=◌, AllLimits,
  positive_safe, parse_positive_safe_integer, bounded, load_limits,
}

abbrev IsBetween : ℕ → ℕ → Type 0
IsBetween maximum n = (1 ≤ n) × (n ≤ maximum)

-- Within the hard bounds, and none is nought.
pub record AreBounded (all : AllLimits) : Type 0 where
  pub partitions : IsBetween 2000 all.limits.max_partitions
  pub bytes : IsBetween 1073741824 all.limits.max_bytes
  pub per_org : IsBetween 64 all.limits.max_active_per_org
  pub per_requester : IsBetween 16 all.limits.max_active_per_requester
  pub retention : IsBetween 86400 all.limits.retention_seconds
  pub url_ttl : IsBetween 900 all.url_ttl_seconds

bind-eq-loaded :
    {A B : Type 0} (m : Loaded A) (f : A → Loaded B) (b : B)
    → (m >>= f) ≡ loaded b
    → (a : A) × (m ≡ loaded a) × (f a ≡ loaded b)
bind-eq-loaded (loaded a) f b e = (a, refl, e)
bind-eq-loaded (refused key) f b e = cc

module _ (number : Text → Option ℤ) (env : Key → Option Text) where
  bounded-IsBetween :
      (key : Key) (default_value maximum n : ℕ)
      → 1 ≤ default_value
      → bounded number env key default_value maximum ≡ loaded n
      → IsBetween maximum n
  unfolding bounded parse_positive_safe_integer positive_safe
  bounded-IsBetween key default_value maximum n some_default e = ground arith

  -- Limits that are loaded, from any environment and however texts are read as numbers, are positive
  -- and within the hard bounds.
  pub load_limits-AreBounded :
      (all : AllLimits) → load_limits number env ≡ loaded all → AreBounded all
  unfolding load_limits
  load_limits-AreBounded all e =
      let (partitions, a, e1) =
        bind-eq-loaded (bounded number env max_partitions_key 500 2000) _ _ e in
      let (bytes, b, e2) =
        bind-eq-loaded (bounded number env max_bytes_key 268435456 1073741824) _ _ e1 in
      let (per_org, c, e3) =
        bind-eq-loaded (bounded number env max_active_per_org_key 16 64) _ _ e2 in
      let (per_requester, d, e4) =
        bind-eq-loaded (bounded number env max_active_per_requester_key 4 16) _ _ e3 in
      let (retention, r, e5) =
        bind-eq-loaded (bounded number env retention_seconds_key 86400 86400) _ _ e4 in
      let (url_ttl, u, e6) =
        bind-eq-loaded (bounded number env url_ttl_seconds_key 900 900) _ _ e5 in
      let low_partitions =
        bounded-IsBetween max_partitions_key 500 2000 partitions (omega arith) a in
      let low_bytes = bounded-IsBetween max_bytes_key 268435456 1073741824 bytes (omega arith) b in
      let low_org = bounded-IsBetween max_active_per_org_key 16 64 per_org (omega arith) c in
      let low_requester =
        bounded-IsBetween max_active_per_requester_key 4 16 per_requester (omega arith) d in
      let low_retention =
        bounded-IsBetween retention_seconds_key 86400 86400 retention (omega arith) r in
      let low_url = bounded-IsBetween url_ttl_seconds_key 900 900 url_ttl (omega arith) u in
      ground arith
