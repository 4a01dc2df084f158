-- ===== src/Downloads/Transitions/Transactions.antt =====
-- A transaction whose effect on the requests is a sequence of steps of the abstract view, and how
-- its parts give it.
use sme_data_center.Common.{
  ℕ, Bool, true, false, if◌then◌else◌, Option, some, List, inl, inr, Option-cases, ◌≡◌, refl, arith,
  Text, subst, sym, ap, ◌∙◌, ==_iff, find_holds, update_many,
}
use sme_data_center.Downloads.Schema.{
  Code, Request, GarbageReason, Db, Env, Result, ok, err, ◌>>=◌, is_live, enqueue_garbage,
  update_request,
}
use sme_data_center.Downloads.Requests.{
  Times, garbage_queued, Ending, as_failed, as_expired, ending_status, end_request, fail_runs,
  drop_artifact, terminate,
}
use sme_data_center.Downloads.Transitions.{has_id, row_at, ◌⇒◌, ◌⇒*◌, ends}
use sme_data_center.Downloads.Transitions.Rules.{one, compose}

-- This is shut, so that the rules below find the parts of the transaction.
pub Refines : {A : Type 0} → List Request → Result (A × Db) → Type 0
Refines {A} rows (ok (a, later)) = rows ⇒* later.requests
Refines {A} rows (err code) = Unit

module _ (rows : List Request) where
  pub Refines-ok :
      {A : Type 0} (a : A) (later : Db) → rows ⇒* later.requests → Refines rows (ok (a, later))
  unfolding Refines
  Refines-ok a later s = s

  pub Refines-err : (A : Type 0) (code : Code) → Refines {A = A} rows (err code)
  unfolding Refines
  Refines-err A code = tt

  pub Refines-use :
      {A : Type 0} (r : Result (A × Db)) {a : A} {later : Db}
      → Refines rows r
      → r ≡ ok (a, later)
      → rows ⇒* later.requests
  unfolding Refines
  Refines-use (ok (b, db)) s e = ground arith
  Refines-use (err code) s e = cc

  pub Refines-bind :
      {A B : Type 0} (m : Result A) (f : A → Result (B × Db))
      → ((a : A) → m ≡ ok a → Refines rows (f a))
      → Refines rows (m >>= f)
  unfolding Refines
  Refines-bind (ok a) f h = h a refl
  Refines-bind (err code) f h = tt

  -- A last write, whose result is dropped.
  pub Refines-done :
      {A B : Type 0} (b : B) (m : Result (A × Db))
      → Refines rows m
      → Refines {A = B} rows (m >>= (λ x. ok (b, x.1)))
  unfolding Refines
  Refines-done b (ok (a, later)) s = s
  Refines-done b (err code) s = tt

  pub Refines-if :
      {A : Type 0} (b : Bool) (x y : Result (A × Db))
      → (b ≡ true → Refines rows x)
      → (b ≡ false → Refines rows y)
      → Refines rows (if b then x else y)
  Refines-if true x y h k = h refl
  Refines-if false x y h k = k refl

-- A transaction that goes on from what another part has left.
pub Refines-after :
    {A : Type 0} {xs ys : List Request} (r : Result (A × Db))
    → xs ⇒* ys
    → Refines ys r
    → Refines xs r
unfolding Refines
Refines-after (ok (a, later)) before s = compose before s
Refines-after (err code) before s = tt

pub enqueue-requests :
    (env : Env) (key : Text) (reason : GarbageReason) (time : ℕ) (run : Option ℕ) (db : Db)
    {later : Db}
    → enqueue_garbage env key reason time run db ≡ ok later
    → later.requests ≡ db.requests
unfolding enqueue_garbage
enqueue-requests env key reason time run db e = ground arith

drop-requests :
    (env : Env) (row : Request) (code : Code) (now : ℕ) (db : Db) {later : Db}
    → drop_artifact env row code now db ≡ ok later
    → later.requests ≡ db.requests
unfolding drop_artifact enqueue_garbage
drop-requests env row code now db e = ground arith

pub bind-eq-ok :
    {A B : Type 0} (m : Result A) (f : A → Result B) (b : B)
    → (m >>= f) ≡ ok b
    → (a : A) × (m ≡ ok a) × (f a ≡ ok b)
bind-eq-ok (ok a) f b e = (a, refl, e)
bind-eq-ok (err x) f b e = cc

pub update-requests :
    (id : ℕ) (f : Request → Request) (db : Db) {row : Request} {later : Db}
    → update_request id f db ≡ ok (row, later)
    → later.requests ≡ update_many (has_id id) f db.requests
unfolding update_request
update-requests id f db e = ground arith

pub update-row :
    (id : ℕ) (f : Request → Request) (db : Db) {row : Request} {later : Db}
    → update_request id f db ≡ ok (row, later)
    → (found : Request) × (row_at id db.requests ≡ some found) × (row ≡ f found)
unfolding update_request
update-row id f db e = elim (Option-cases (row_at id db.requests)) [
  | inl m ↦ cc (rw (m, update_request) at e)
  | inr (found, m) ↦ let shown = rw (m, update_request) at e in (found, m, ground arith)
]

pub terminate-requests :
    (env : Env) (row : Request) (ending : Ending) (code : Code) (clock : ℕ) (at : Times) (db : Db)
    {shown : Request} {later : Db}
    → terminate env row ending code clock at db ≡ ok (shown, later)
    → (later.requests ≡ update_many (has_id row.id) (end_request ending code) db.requests)
      × (shown.status ≡ ending_status ending)
unfolding terminate fail_runs drop_artifact enqueue_garbage update_request
terminate-requests env row ending code clock at db e = ground arith

-- A request that has just ended is not live.
pub terminate-dead :
    (env : Env) (row : Request) (ending : Ending) (code : Code) (clock : ℕ) (at : Times) (db : Db)
    (shown : Request) (later : Db)
    → terminate env row ending code clock at db ≡ ok (shown, later)
    → is_live shown.status ≡ false
terminate-dead env row as_failed code clock at db shown later e =
    let ended = terminate-requests env row as_failed code clock at db e in ground arith
terminate-dead env row as_expired code clock at db shown later e =
    let ended = terminate-requests env row as_expired code clock at db e in ground arith

pub terminate-⇒ :
    (env : Env) (row : Request) (ending : Ending) (code : Code) (clock : ℕ) (at : Times) (db : Db)
    → Refines db.requests (terminate env row ending code clock at db)
unfolding Refines
terminate-⇒ env row ending code clock at db = of_result _ refl
  where
    of_result :
        (r : Result (Request × Db))
        → terminate env row ending code clock at db ≡ r
        → Refines db.requests r
    of_result (err e) h = tt
    of_result (ok (shown, later)) h =
        subst (λ rows. db.requests ⇒* rows)
          (sym (terminate-requests env row ending code clock at db h).0)
          (one (ends row.id ending code))

pub update-⇒ :
    (id : ℕ) (f : Request → Request) (db : Db)
    → db.requests ⇒ update_many (has_id id) f db.requests
    → Refines db.requests (update_request id f db)
unfolding Refines update_request
update-⇒ id f db step = elim (Option-cases (row_at id db.requests)) [
  | inl m ↦ rw (m, Refines) tt
  | inr (found, m) ↦ rw (m, Refines) (one step)
]

-- The row that is returned has the id of the row that was given.
pub terminate-id :
    (env : Env) (row : Request) (ending : Ending) (code : Code) (clock : ℕ) (at : Times) (db : Db)
    (shown : Request) (later : Db)
    → terminate env row ending code clock at db ≡ ok (shown, later)
    → shown.id ≡ row.id
unfolding terminate
terminate-id env row ending code clock at db shown later e =
    let (dropped, d, rest) =
      bind-eq-ok (drop_artifact env row code (at garbage_queued) db)
        (λ queued.
          update_request row.id (end_request ending code)
            (fail_runs row.org_id row.id code clock queued))
        _ e in
    let (found, f, same) = update-row row.id (end_request ending code) _ rest in
    ap (λ (r : Request). r.id) same
    ∙ (==_iff found.id row.id).0 (find_holds (has_id row.id) _ found f)
