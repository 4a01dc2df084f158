-- ===== src/Downloads/Access/Guards.antt =====
-- `issueCurrent` taken apart: it issues exactly where each of its guards is passed.
use sme_data_center.Common.{
  ℕ, Bool, true, false, not, ◌&&◌, ◌||◌, some, List, ◌==◌, ◌≡◌, refl, sym, ap, ◌∙◌, subst, subst₂,
  ◌↔◌, arith, leb, length, Bool-cases, inl, inr, ==_iff,
}
use sme_data_center.Downloads.Schema.{
  expired_code, Entry, Request, Employee, Db, Env, Result, ok, is_failed, is_expired, lock_request,
  entries_of,
}
use sme_data_center.Downloads.Requests.{
  Times, row_due, ended_at, as_expired, expire_row, content_current,
}
use sme_data_center.Downloads.Workers.{Actor, Current, internal}
use sme_data_center.Downloads.Prepare.{authority}
use sme_data_center.Downloads.Access.{
  own_request, is_suspended, actor_of, is_readable, issue_view, issue_live, issue_shown,
  issue_counted, issue_found, issue_current,
}
use sme_data_center.Downloads.Transitions.Transactions.{terminate-requests, bind-eq-ok}

-- The request is in use: it has not ended and its time has not come.
pub record InUse (row : Request) (now : ℕ) : Type 0 where
  pub not_ended : (is_failed row.status || is_expired row.status) ≡ false
  pub in_time : leb row.expires_at now ≡ false

-- The guards that stand between an actor and what is issued on a request.
pub record Passes {A : Type 0} (issue : Current → Result A) (env : Env) (actor : Actor) (id : ℕ)
    (at : Times) (db : Db) (a : A) : Type 0 where
  pub row : Request
  pub employee : Employee
  pub entries : List Entry
  pub current : Current
  pub found : lock_request id actor.org_id db ≡ some row
  pub own : row.requester_id ≡ actor.id
  pub known : authority actor.id actor.org_id db ≡ ok employee
  pub allowed : is_suspended row.org_id db ≡ false
  pub parsed : entries_of row ≡ ok entries
  pub whole : length entries ≡ row.partition_count
  pub in_use : InUse row (at row_due)
  pub unchanged : content_current env row db ≡ ok true
  pub view : internal row (actor_of employee) ≡ ok current
  pub readable : is_readable env employee current db ≡ true
  pub issued : issue current ≡ ok a

own-eq-ok :
    (actor : Actor) (id : ℕ) (db : Db) (row : Request)
    → own_request actor id db ≡ ok row
    → (lock_request id actor.org_id db ≡ some row) × ((row.requester_id == actor.id) ≡ true)
unfolding own_request
own-eq-ok actor id db row e = ground arith

-- A row that is shown as not ended is the row before its expiry was read, and was not due.
not_ended-eq-ok :
    (env : Env) (row : Request) (at : Times) (db : Db) (shown : Request) (later : Db)
    → expire_row env row (at row_due) at db ≡ ok (shown, later)
    → (is_failed shown.status || is_expired shown.status) ≡ false
    → (shown ≡ row) × (later ≡ db) × (leb row.expires_at (at row_due) ≡ false)
unfolding expire_row
not_ended-eq-ok env row at db shown later e live = ground (
  arith,
  terminate-requests env row as_expired expired_code (at ended_at) at db {shown = shown}
      {later = later},
)

module _ {A : Type 0} (issue : Current → Result A) (env : Env) (e : Employee) where
  -- What is passed once the row has been shown.
  record Passed (row : Request) (db : Db) (a : A) (later : Db) : Type 0 where
    pub current : Current
    pub view : internal row (actor_of e) ≡ ok current
    pub not_ended : (is_failed row.status || is_expired row.status) ≡ false
    pub unchanged : content_current env row db ≡ ok true
    pub readable : is_readable env e current db ≡ true
    pub issued : issue current ≡ ok a
    pub kept : later ≡ db

  view-eq-ok :
      (row : Request) (current : Current) (unchanged : Bool) (db : Db) (a : A) (later : Db)
      → issue_view issue env e current unchanged db ≡ ok (ok a, later)
      → (unchanged ≡ true)
        × (is_readable env e current db ≡ true)
        × (issue current ≡ ok a)
        × (later ≡ db)
  unfolding issue_view
  view-eq-ok row current unchanged db a later h = ground arith

  shown-eq-ok :
      (row : Request) (db : Db) (a : A) (later : Db)
      → issue_shown issue env e (row, db) ≡ ok (ok a, later)
      → Passed row db a later
  unfolding issue_shown issue_live
  shown-eq-ok row db a later h =
      let (current, view, rest) = bind-eq-ok (internal row (actor_of e)) _ _ h in
      elim (Bool-cases (is_failed row.status || is_expired row.status)) [
        | inl over ↦ let refused = rw over at rest in cc
        | inr live ↦
            let (unchanged, c, seen) =
              bind-eq-ok (content_current env row db) _ _ (rw live at rest) in
            let (whole, readable, issued, kept) =
              view-eq-ok row current unchanged db a later seen in
            record {
              current = current;
              view = view;
              not_ended = live;
              unchanged = c ∙ ap (λ b. ok b) whole;
              readable = readable;
              issued = issued;
              kept = kept;
            }
      ]

module _ {A : Type 0} (issue : Current → Result A) (env : Env) (at : Times) where
  -- From the row that is the actor's own, and the employee.
  found-eq-ok :
      (actor : Actor) (id : ℕ) (row : Request) (e : Employee) (db : Db) (a : A) (later : Db)
      → lock_request id actor.org_id db ≡ some row
      → (row.requester_id == actor.id) ≡ true
      → authority actor.id actor.org_id db ≡ ok e
      → issue_found issue env e row at db ≡ ok (ok a, later)
      → Passes issue env actor id at db a × (later ≡ db)
  unfolding issue_found issue_counted
  found-eq-ok actor id row e db a later found own known h =
      let allowed : is_suspended row.org_id db ≡ false = ground arith in
      let (entries, parsed, rest) = bind-eq-ok (entries_of row) _ _ (rw allowed at h) in
      let whole : (length entries == row.partition_count) ≡ true = ground arith in
      let (swept, x, shown) =
        bind-eq-ok (expire_row env row (at row_due) at db) (issue_shown issue env e) _
          (rw whole at rest) in
      let seen = shown-eq-ok issue env e swept.0 swept.1 a later shown in
      let (same_row, same_db, in_time) =
        not_ended-eq-ok env row at db swept.0 swept.1 x seen.not_ended in
      (
        record {
          row = row;
          employee = e;
          entries = entries;
          current = seen.current;
          found = found;
          own = (==_iff _ _).0 own;
          known = known;
          allowed = allowed;
          parsed = parsed;
          whole = (==_iff _ _).0 whole;
          in_use = record {
            not_ended =
                subst (λ (r : Request). (is_failed r.status || is_expired r.status) ≡ false)
                  same_row seen.not_ended;
            in_time = in_time;
          };
          unchanged =
              subst₂ (λ r d. content_current env r d ≡ ok true) same_row same_db seen.unchanged;
          view = subst (λ r. internal r (actor_of e) ≡ ok seen.current) same_row seen.view;
          readable = subst (λ d. is_readable env e seen.current d ≡ true) same_db seen.readable;
          issued = seen.issued;
        },
        seen.kept ∙ same_db,
      )

  issue_forth :
      (actor : Actor) (id : ℕ) (db : Db) (a : A) (later : Db)
      → issue_current issue env actor id at db ≡ ok (ok a, later)
      → Passes issue env actor id at db a × (later ≡ db)
  unfolding issue_current
  issue_forth actor id db a later h =
      let (row, o, rest) = bind-eq-ok (own_request actor id db) _ _ h in
      let (found, own) = own-eq-ok actor id db row o in
      let (e, known, last) = bind-eq-ok (authority actor.id actor.org_id db) _ _ rest in
      found-eq-ok actor id row e db a later found own known last

  issue_back :
      (actor : Actor) (id : ℕ) (db : Db) (a : A)
      → Passes issue env actor id at db a
      → issue_current issue env actor id at db ≡ ok (ok a, db)
  unfolding issue_current own_request issue_found issue_counted issue_shown issue_live issue_view
      expire_row
  issue_back actor id db a g =
      let own : (g.row.requester_id == actor.id) ≡ true = (==_iff _ _).1 g.own in
      let whole : (length g.entries == g.row.partition_count) ≡ true = (==_iff _ _).1 g.whole in
      let mine : own_request actor id db ≡ ok g.row = rw (g.found, own, own_request) refl in
      let waits : (not (is_expired g.row.status) && leb g.row.expires_at (at row_due)) ≡ false =
        ground (arith, g.in_use.in_time) in
      let shown : expire_row env g.row (at row_due) at db ≡ ok (g.row, db) =
        rw (waits, expire_row) refl in
      rw
        (
          mine, g.known, g.allowed, g.parsed, whole, shown, g.view, g.in_use.not_ended, g.unchanged,
          g.readable, g.issued, issue_current, issue_found, issue_counted, issue_shown, issue_live,
          issue_view,
        )
        refl

  pub issue_current-Passes :
      (actor : Actor) (id : ℕ) (db : Db) (a : A) (later : Db)
      → (issue_current issue env actor id at db ≡ ok (ok a, later))
        ↔ (Passes issue env actor id at db a × (later ≡ db))
  issue_current-Passes actor id db a later = (
    λ h. issue_forth actor id db a later h,
    λ h. issue_back actor id db a h.0 ∙ ap (λ d. ok (ok a, d)) (sym h.1),
  )
