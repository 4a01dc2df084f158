-- ===== src/Downloads/Sweep/Progress.antt =====
-- Whole sweeps, and sweeps repeated, from a table with unique ids and a queue filed under hashes that
-- keep keys apart.
use sme_data_center.Common.{
  ℕ, zero, suc, ◌+◌, ◌*◌, ◌≤◌, min, false, List, [], ◌∷◌, ◌≡◌, refl, sym, ap, ◌∙◌, subst, arith,
  All, any, count, update_many, length, Text,
}
use sme_data_center.Downloads.Schema.{expired_code, Request, Db, Env, Result, ok}
use sme_data_center.Downloads.Requests.{Rounds, as_expired, end_request}
use sme_data_center.Downloads.Sweep.{is_due, due_requests, go_on, expire_each, expire}
use sme_data_center.Downloads.Transitions.{has_id}
use sme_data_center.Downloads.Transitions.Rules.{Unique, update-Unique}
use sme_data_center.Downloads.Sweep.Rows.{IsPending, due_requests-IsPending, length-due_requests}
use sme_data_center.Downloads.Sweep.Ends.{IsFiled, expire_one-ok, count-ended, row_at-ended}

pub record IsReady (env : Env) (db : Db) : Type 0 where
  pub unique : Unique db.requests
  pub filed : IsFiled env db
  pub apart : (a b : Text) → env.key_hash a ≡ env.key_hash b → a ≡ b

-- What some transactions of a sweep do: each takes one request off the due ones, and none throws.
pub record Sweeps (env : Env) (clock done n : ℕ) (db : Db) (swept : Result ℕ × Db) : Type 0 where
  pub answer : swept.0 ≡ ok (done + n)
  pub fewer : count (is_due clock) swept.1.requests + n ≡ count (is_due clock) db.requests
  pub ready : IsReady env swept.1

module _ (env : Env) (clock : ℕ) (at : Rounds) where
  -- The rows that are left stay pending, since they have other ids.
  still-IsPending :
      (id : ℕ) (xs : List Request) (rows : List Request)
      → any (has_id id) rows ≡ false
      → All (IsPending clock xs) rows
      → All
          (IsPending clock (update_many (has_id id) (end_request as_expired expired_code) xs))
          rows
  still-IsPending id xs [] new h = tt
  still-IsPending id xs (r ∷ rows) new ((e, due), h) = (
    (
      row_at-ended r.id id (end_request as_expired expired_code) xs r (λ x. refl) e (ground arith),
      due,
    ),
    still-IsPending id xs rows (ground arith) h,
  )

  expire_each-Sweeps :
      (rows : List Request) (done : ℕ) (db : Db)
      → IsReady env db
      → Unique rows
      → All (IsPending clock db.requests) rows
      → Sweeps env clock done (length rows) db (expire_each env clock at rows done db)
  unfolding expire_each go_on
  expire_each-Sweeps [] done db ready u h = record {
    answer = ap (λ n. ok n) (omega arith);
    fewer = omega arith;
    ready = ready;
  }
  expire_each-Sweeps (r ∷ rows) done db ready (new, u) ((e, due), h) =
      let (later, result, changed, filed) =
        expire_one-ok env ready.apart clock r (at r.id) db ready.filed e due in
      let f = end_request as_expired expired_code in
      let mid : IsReady env later = record {
        unique =
            subst Unique (sym changed) (update-Unique r.id f db.requests (λ x. refl) ready.unique);
        filed = filed;
        apart = ready.apart;
      } in
      let rest = expire_each-Sweeps rows (done + 1) later mid u (
        subst (λ xs. All (IsPending clock xs) rows) (sym changed)
          (still-IsPending r.id db.requests rows new h)) in
      let one_less = count-ended clock r.id db.requests r ready.unique e due in
      let same = ap (λ xs. count (is_due clock) xs) changed in
      rw (result, go_on)
        (record {
          answer = rest.answer ∙ ap (λ n. ok n) (omega arith);
          fewer = omega (arith, rest.fewer, one_less, same);
          ready = rest.ready;
        })

  -- A sweep expires as many due requests as there are, up to 100, and throws nothing.
  sweep-Sweeps :
      (db : Db)
      → IsReady env db
      → Sweeps env clock 0 (min 100 (count (is_due clock) db.requests)) db (expire env clock at db)
  unfolding expire
  sweep-Sweeps db ready =
      let (u, pending) = due_requests-IsPending clock db ready.unique in
      subst (λ n. Sweeps env clock 0 n db (expire_each env clock at (due_requests clock db) 0 db))
        (length-due_requests clock db)
        (expire_each-Sweeps (due_requests clock db) 0 db ready u pending)

-- The database after a number of sweeps, each with its own times.
pub sweep_times : Env → ℕ → (ℕ → Rounds) → ℕ → Db → Db
sweep_times env clock at zero db = db
sweep_times env clock at (suc n) db = sweep_times env clock at n (expire env clock (at n) db).1

-- Every request that is due gets expired: after enough sweeps at a time, one for each hundred
-- requests that are due, none is due, where the ids are unique, the queue of garbage is filed under
-- the hashes of its keys, and the hash keeps keys apart, whatever the clock gives at the turns of each.
pub sweep_times-none_due :
    (env : Env) (clock : ℕ) (at : ℕ → Rounds) (n : ℕ) (db : Db)
    → IsReady env db
    → count (is_due clock) db.requests ≤ 100 * n
    → count (is_due clock) (sweep_times env clock at n db).requests ≡ 0
unfolding sweep_times
sweep_times-none_due env clock at zero db ready few = omega (arith, few)
sweep_times-none_due env clock at (suc n) db ready few =
    let swept = sweep-Sweeps env clock (at n) db ready in
    sweep_times-none_due env clock at n (expire env clock (at n) db).1 swept.ready
      (omega (arith, swept.fewer, few))
