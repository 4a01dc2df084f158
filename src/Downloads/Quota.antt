-- ===== src/Downloads/Quota.antt =====
-- The quotas of active requests, which `prepare` counts at its reading of the clock.
use sme_data_center.Common.{
  ℕ, ◌≤◌, ◌<◌, Bool, true, false, List, [], ◌∷◌, ◌≡◌, refl, sym, ◌⊎◌, inl, inr, Option-cases, arith,
  subst, subst₂, find, update_many, count,
}
use sme_data_center.Downloads.Schema.{expired_code, Entry, Request, Employee, Db, Env, ok, is_live}
use sme_data_center.Downloads.Requests.{
  Times, row_due, ended_at, quota_read, as_expired, end_request, expire_row,
}
use sme_data_center.Downloads.Workers.{PublicStatus}
use sme_data_center.Downloads.Prepare.{
  is_keyed, is_key, counts_for, counts_for_requester, is_over_quota, PrepareInput, new_request,
  create_checked, prepare_by, prepare, authority,
}
use sme_data_center.Downloads.Transitions.{has_id}
use sme_data_center.Downloads.Transitions.Transactions.{terminate-requests, bind-eq-ok}
use sme_data_center.Downloads.Keys.Prepared.{created_row, existing_row, authority-ids}

-- The number of rows that pass a test is within a limit, or no more than it was.
abbrev pub IsWithin : ℕ → (Request → Bool) → Db → Db → Type 0
IsWithin limit q db later =
    (count q later.requests ≤ limit) ⊎ (count q later.requests ≤ count q db.requests)

count_ended :
    (q : Request → Bool) (id : ℕ) (f : Request → Request) (rows : List Request)
    → ((r : Request) → q (f r) ≡ false)
    → count q (update_many (has_id id) f rows) ≤ count q rows
count_ended q id f [] out = omega arith
count_ended q id f (r ∷ rows) out = ground (arith, count_ended q id f rows out, out r)

expire-requests :
    (env : Env) (row : Request) (clock : ℕ) (at : Times) (db : Db) (swept : Request) (later : Db)
    → expire_row env row clock at db ≡ ok (swept, later)
    → (later.requests ≡ db.requests)
      ⊎ (later.requests
          ≡ update_many (has_id row.id) (end_request as_expired expired_code) db.requests)
unfolding expire_row
expire-requests env row clock at db swept later h = ground (
  arith,
  terminate-requests env row as_expired expired_code (at ended_at) at db {shown = swept}
      {later = later},
)

expire-count :
    (q : Request → Bool) (env : Env) (row : Request) (clock : ℕ) (at : Times) (db : Db)
    (swept : Request) (later : Db)
    → ((r : Request) → q (end_request as_expired expired_code r) ≡ false)
    → expire_row env row clock at db ≡ ok (swept, later)
    → count q later.requests ≤ count q db.requests
expire-count q env row clock at db swept later out h =
    elim (expire-requests env row clock at db swept later h) [
      | inl same ↦ subst (λ rows. count q rows ≤ count q db.requests) (sym same) (omega arith)
      | inr updated ↦
          subst (λ rows. count q rows ≤ count q db.requests) (sym updated)
            (count_ended q row.id (end_request as_expired expired_code) db.requests out)
    ]

-- One more row, which does not count or has room.
count_added :
    (limit : ℕ) (q : Request → Bool) (r : Request) (db later : Db)
    → later.requests ≡ r ∷ db.requests
    → (q r ≡ false) ⊎ (count q db.requests < limit)
    → IsWithin limit q db later
count_added limit q r db later added room =
    subst (λ rows. (count q rows ≤ limit) ⊎ (count q rows ≤ count q db.requests)) (sym added)
      (by_room room)
  where
    by_room :
        (q r ≡ false) ⊎ (count q db.requests < limit)
        → (count q (r ∷ db.requests) ≤ limit) ⊎ (count q (r ∷ db.requests) ≤ count q db.requests)
    by_room (inl out) = ground arith
    by_room (inr less) = ground arith

uncounted :
    (org requester now : ℕ) (r : Request)
    → is_live r.status ≡ false
    → (counts_for org now r ≡ false) × (counts_for_requester org requester now r ≡ false)
uncounted org requester now r dead = ground arith

module _ (env : Env) (input : PrepareInput) (e : Employee) (at : Times) (db : Db) where
  admitted :
      (entries : List Entry) (shown : PublicStatus) (later : Db)
      → create_checked env input e entries at db ≡ ok (shown, later)
      → (is_live (new_request env input e entries at).status ≡ false)
        ⊎ ((count (counts_for e.org_id (at quota_read)) db.requests
              < input.limits.max_active_per_org)
            × (count (counts_for_requester e.org_id e.id (at quota_read)) db.requests
                < input.limits.max_active_per_requester))
  unfolding create_checked is_over_quota new_request
  admitted entries shown later h = ground arith

  created-IsWithin :
      (entries : List Entry) (shown : PublicStatus) (later : Db)
      → create_checked env input e entries at db ≡ ok (shown, later)
      → IsWithin input.limits.max_active_per_org (counts_for e.org_id (at quota_read)) db later
        × IsWithin input.limits.max_active_per_requester
            (counts_for_requester e.org_id e.id (at quota_read))
            db
            later
  created-IsWithin entries shown later h =
      let (added, same) = created_row env input e at db entries shown later h in
      elim (admitted entries shown later h) [
        | inl dead ↦
            let (out, out_too) =
              uncounted e.org_id e.id (at quota_read) (new_request env input e entries at) dead in
            (
              count_added _ _ _ db later added (inl out),
              count_added _ _ _ db later added (inl out_too),
            )
        | inr (room, room_too) ↦ (
          count_added _ _ _ db later added (inr room),
          count_added _ _ _ db later added (inr room_too),
        )
      ]

  prepared-IsWithin :
      (shown : PublicStatus) (later : Db)
      → prepare_by env input at db e ≡ ok (shown, later)
      → IsWithin input.limits.max_active_per_org (counts_for e.org_id (at quota_read)) db later
        × IsWithin input.limits.max_active_per_requester
            (counts_for_requester e.org_id e.id (at quota_read))
            db
            later
  unfolding prepare_by
  prepared-IsWithin shown later h =
      elim (Option-cases (find (is_keyed e.org_id e.id input.key) db.requests)) [
        | inl m ↦ created-IsWithin _ shown later (rw (m, prepare_by) at h)
        | inr (row, m) ↦
            let (locked, swept, _, x, _) =
              existing_row env input e at db row shown later (rw (m, prepare_by) at h) in
            let out = λ (r : Request).
              uncounted e.org_id e.id (at quota_read) (end_request as_expired expired_code r)
                refl in
            (
              inr (
                  expire-count (counts_for e.org_id (at quota_read)) env locked (at row_due) at db
                    swept later (λ r. (out r).0) x),
              inr (
                  expire-count (counts_for_requester e.org_id e.id (at quota_read)) env locked
                    (at row_due) at db swept later (λ r. (out r).1) x),
            )
      ]

-- A `prepare` that answers keeps both quotas: at its reading of the clock, the live requests of the
-- organization, and those of the requester, are within the limit or no more than they were.
pub prepare-IsWithin :
    (env : Env) (input : PrepareInput) (at : Times) (db : Db) (shown : PublicStatus) (later : Db)
    → prepare env input at db ≡ ok (shown, later)
    → IsWithin input.limits.max_active_per_org
        (counts_for input.actor.org_id (at quota_read))
        db
        later
      × IsWithin input.limits.max_active_per_requester
          (counts_for_requester input.actor.org_id input.actor.id (at quota_read))
          db
          later
unfolding prepare
prepare-IsWithin env input at db shown later h =
    let valid : is_key input.key ≡ true = ground arith in
    let (e, known, rest) =
      bind-eq-ok (authority input.actor.id input.actor.org_id db) (prepare_by env input at db) _
        (rw valid at h) in
    let (same_id, same_org) = authority-ids input.actor.id input.actor.org_id db e known in
    subst₂
      (λ org id.
        IsWithin input.limits.max_active_per_org (counts_for org (at quota_read)) db later
        × IsWithin input.limits.max_active_per_requester
            (counts_for_requester org id (at quota_read)) db later)
      same_org same_id (prepared-IsWithin env input e at db shown later rest)
