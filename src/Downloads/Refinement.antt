-- ===== src/Downloads/Refinement.antt =====
-- The operations of partition-downloads.ts against the steps of Downloads/Transitions: what the
-- operations share, from a table of requests with unique ids.
pub mod Workers
pub mod Requesters
pub mod Histories
pub mod Sweep
use sme_data_center.Common.{
  ℕ, Bool, true, false, not, ◌&&◌, if◌then◌else◌, Option, none, some, List, inl, inr, Bool-cases,
  Option-cases, ◌≡◌, refl, arith, sym, ap, ◌∙◌, subst₂, update_many, find, leb,
}
use sme_data_center.Downloads.Schema.{
  failed, expired, Code, stale, expired_code, Request, Run, Db, Env, Result, ok, err, ◌>>=◌,
  is_live, is_expired, is_after, lock_request,
}
use sme_data_center.Downloads.Requests.{
  Times, row_due, row_expired, content_due, stale_at, ended_at, lease_found, lease_ended, Ending,
  as_failed, as_expired, terminate, expire_row, content_current, check_found, check_content, Lease,
  find_lease, keep_leased, fenced_found, fenced,
}
use sme_data_center.Downloads.Transitions.{has_id, row_at, ◌⇒*◌, here, next, ends}
use sme_data_center.Downloads.Transitions.Rules.{one, Unique, lock-row_at, row_at-id}
use sme_data_center.Downloads.Transitions.Transactions.{
  Refines, Refines-ok, Refines-err, Refines-use, Refines-bind, Refines-if, Refines-after,
  bind-eq-ok, terminate-⇒, terminate-dead,
}

module _ (env : Env) (at : Times) where
  pub expire-⇒ :
      (row : Request) (clock : ℕ) (db : Db) → Refines db.requests (expire_row env row clock at db)
  unfolding expire_row
  expire-⇒ row clock db =
      Refines-if _ _ _ _ (λ h. terminate-⇒ env row as_expired expired_code (at ended_at) at db)
        (λ h. Refines-ok _ row db here)

  -- A row that is live after its expiry was read is the row before it.
  pub expire-live :
      (row : Request) (clock : ℕ) (db : Db) {shown : Request} {later : Db}
      → expire_row env row clock at db ≡ ok (shown, later)
      → is_live shown.status ≡ true
      → (shown ≡ row) × (later ≡ db)
  unfolding expire_row
  expire-live row clock db {shown = shown} {later = later} e live =
      ground (arith, terminate-dead env row as_expired expired_code (at ended_at) at db shown later)

  pub check_found-⇒ : (row : Request) (db : Db) → Refines db.requests (check_found env at (row, db))
  unfolding check_found
  check_found-⇒ row db =
      Refines-if _ (not (is_live row.status)) _ _ (λ h. Refines-ok _ row db here)
        (λ h. Refines-bind _ _ _ (λ unchanged e.
          Refines-if _ unchanged _ _ (λ k. Refines-ok _ row db here)
            (λ k. terminate-⇒ env row as_failed stale (at stale_at) at db)))

  check_found-live :
      (row : Request) (db : Db) {shown : Request} {later : Db}
      → check_found env at (row, db) ≡ ok (shown, later)
      → is_live shown.status ≡ true
      → (shown ≡ row) × (later ≡ db)
  unfolding check_found
  check_found-live row db {shown = shown} {later = later} e live =
      ground (arith, terminate-dead env row as_failed stale (at stale_at) at db shown later)

  pub check_content-⇒ :
      (row : Request) (db : Db) → Refines db.requests (check_content env row at db)
  unfolding check_content
  check_content-⇒ row db =
      Refines-bind _ (expire_row env row (at content_due) at db) (check_found env at)
        (λ (found : Request × Db) e.
          Refines-after (check_found env at found)
            (Refines-use _ _ (expire-⇒ row (at content_due) db) e) (check_found-⇒ found.0 found.1))

  pub check_content-live :
      (row : Request) (db : Db) (shown : Request) (later : Db)
      → check_content env row at db ≡ ok (shown, later)
      → is_live shown.status ≡ true
      → (shown ≡ row) × (later ≡ db)
  unfolding check_content
  check_content-live row db shown later e live =
      let (found, swept, rest) =
        bind-eq-ok (expire_row env row (at content_due) at db) (check_found env at) _ e in
      let (same_row, same_db) = check_found-live found.0 found.1 rest live in
      let (first_row, first_db) =
        expire-live row (at content_due) db {shown = found.0} {later = found.1} swept
          (ap (λ (r : Request). is_live r.status) (sym same_row) ∙ live) in
      (same_row ∙ first_row, same_db ∙ first_db)

-- Within the fence, the operation starts from the live row that the table has under the id.
module _ {A : Type 0} (refused : A) (env : Env) (at : Times) where
  keep_leased-⇒ :
      (leased : Run) (now : ℕ) (db : Db) (r : Result (A × Db))
      → Refines db.requests r
      → Refines db.requests (keep_leased refused leased now db r)
  unfolding keep_leased
  keep_leased-⇒ leased now db (err code) s = s
  keep_leased-⇒ leased now db (ok (a, later)) s =
      Refines-if _ (is_after leased.locked_until now) _ _ (λ h. s)
        (λ h. Refines-ok _ refused db here)

  pub fenced-⇒ :
      (lease : Lease) (body : Request → Db → Result (A × Db)) (db : Db)
      → Unique db.requests
      → ((row : Request)
          → row_at row.id db.requests ≡ some row
          → is_live row.status ≡ true
          → Refines db.requests (body row db))
      → Refines db.requests (fenced refused env lease at body db)
  unfolding fenced fenced_found
  fenced-⇒ lease body db unique inside =
      elim (Option-cases (lock_request lease.request_id lease.org_id db)) [
        | inl m ↦ rw (m, fenced) (Refines-ok _ refused db here)
        | inr (row, m) ↦ elim (Option-cases (find_lease lease (at lease_found) db)) [
          | inl n ↦ rw (m, n, fenced) (Refines-ok _ refused db here)
          | inr (leased, n) ↦
              rw (m, n, fenced)
                (by_run row leased (row_at-id _ _ row (lock-row_at _ _ db.requests row unique m)))
        ]
      ]
    where
      by_run :
          (row : Request) (leased : Run)
          → row_at row.id db.requests ≡ some row
          → Refines db.requests (fenced_found refused env at body row leased db)
      by_run row leased e =
          Refines-if _ (not (is_live row.status)) _ _ (λ h. Refines-ok _ refused db here)
            (λ h.
              Refines-if _ (leb row.expires_at (at row_due)) _ _
                (λ k.
                  Refines-bind _ (expire_row env row (at row_expired) at db) _
                    (λ (swept : Request × Db) x.
                      Refines-ok _ refused swept.1
                        (Refines-use _ _ (expire-⇒ env at row (at row_expired) db) x)))
                (λ k.
                  keep_leased-⇒ leased (at lease_ended) db (body row db)
                    (inside row e (ground arith))))

  -- An operation that checks the content first goes on from the same row and database, or refuses.
  pub checked-⇒ :
      (db : Db) (row : Request) (f : Request × Db → Result (A × Db))
      → Refines db.requests (f (row, db))
      → ((shown : Request) (later : Db)
          → is_live shown.status ≡ false
          → Refines later.requests (f (shown, later)))
      → Refines db.requests (check_content env row at db >>= f)
  checked-⇒ db row f alive dead =
      Refines-bind _ (check_content env row at db) f (λ found e. goes found e)
    where
      goes :
          (found : Request × Db)
          → check_content env row at db ≡ ok found
          → Refines db.requests (f found)
      goes (shown, later) e = elim (Bool-cases (is_live shown.status)) [
        | inl live ↦
            let (same_row, same_db) = check_content-live env at row db shown later e live in
            subst₂ (λ r d. Refines db.requests (f (r, d))) (sym same_row) (sym same_db) alive
        | inr ended ↦
            Refines-after (f (shown, later)) (Refines-use _ _ (check_content-⇒ env at row db) e)
              (dead shown later ended)
      ]
