-- ===== src/Downloads/Sweep/Ends.antt =====
-- One transaction of a sweep, on a row that is due: it does not throw, and the row is due no more.
use sme_data_center.Common.{
  ℕ, suc, true, false, ◌&&◌, ◌||◌, Option, none, some, List, [], ◌∷◌, ◌==◌, ◌≡◌, refl, sym, ap, ◌∙◌,
  subst, arith, All, All-update_many, All-find, count, find, find_holds, update_many,
  find-update_many, if◌then◌else◌, ltb, Bool-cases, Option-cases, inl, inr, Text, text_eq,
  text_eq_iff,
}
use sme_data_center.Downloads.Schema.{
  Code, expired_code, GarbageReason, ended, Garbage, Request, Db, Env, Result, ok, ◌>>=◌,
  find_garbage, requeue, new_garbage, enqueue_garbage, update_request, is_expired,
}
use sme_data_center.Downloads.Requests.{
  Times, garbage_queued, ended_at, as_expired, end_request, key_of, drop_artifact, fail_runs,
  terminate, expire_row,
}
use sme_data_center.Downloads.Sweep.{is_due, expire_one}
use sme_data_center.Downloads.Transitions.{has_id, row_at}
use sme_data_center.Downloads.Transitions.Rules.{Unique}
use sme_data_center.Downloads.Transitions.Updates.{found_first, found_rest, no_other, update_none}
use sme_data_center.Downloads.Transitions.Transactions.{terminate-requests}

-- Each row of the queue is filed under the hash of its key.
abbrev pub IsFiled : Env → Db → Type 0
IsFiled env db = All (λ (g : Garbage). g.hash ≡ env.key_hash g.object_key) db.garbage

-- What a write that does not throw leaves.
pub record Queued (env : Env) (db : Db) (r : Result Db) : Type 0 where
  pub later : Db
  pub result : r ≡ ok later
  pub requests : later.requests ≡ db.requests
  pub filed : IsFiled env later

update_request-ok :
    (id : ℕ) (f : Request → Request) (db : Db) (found : Request)
    → row_at id db.requests ≡ some found
    → update_request id f db
      ≡ ok (f found, record db { requests = update_many (has_id id) f db.requests })
unfolding update_request
update_request-ok id f db found e = rw (e, update_request) refl

-- A row that is found by its id is found with its organization too.
lock-found :
    (rows : List Request) (row : Request)
    → row_at row.id rows ≡ some row
    → find (λ (r : Request). r.id == row.id && r.org_id == row.org_id) rows ≡ some row
lock-found [] row e = e
lock-found (r ∷ rows) row e = elim (Bool-cases (r.id == row.id)) [
  | inl hit ↦
      let same = found_first row.id r row rows e hit in
      let org = ap (λ (x : Request). x.org_id) same in ground arith
  | inr miss ↦ ground (arith, lock-found rows row)
]

module _ (env : Env) (apart : (a b : Text) → env.key_hash a ≡ env.key_hash b → a ≡ b) where
  enqueue-Queued :
      (key : Text) (reason : GarbageReason) (now : ℕ) (run : Option ℕ) (db : Db)
      → IsFiled env db
      → Queued env db (enqueue_garbage env key reason now run db)
  unfolding enqueue_garbage
  enqueue-Queued key reason now run db filed =
      elim (Option-cases (find_garbage (env.key_hash key) db)) [
        | inl m ↦
            rw (m, enqueue_garbage)
              (record {
                later = record db {
                  garbage = new_garbage (env.key_hash key) key reason now run ∷ db.garbage;
                };
                result = refl;
                requests = refl;
                filed = (refl, filed);
              })
        | inr (g, m) ↦
            rw (m, own g m, enqueue_garbage)
              (record {
                later = record db {
                  garbage =
                      update_many (λ (x : Garbage). text_eq x.hash (env.key_hash key))
                        (requeue key reason now run) db.garbage;
                };
                result = refl;
                requests = refl;
                filed =
                    All-update_many _ (λ (x : Garbage). text_eq x.hash (env.key_hash key))
                      (requeue key reason now run) db.garbage (λ x t h. h) filed;
              })
      ]
    where
      own :
          (g : Garbage)
          → find_garbage (env.key_hash key) db ≡ some g
          → text_eq g.object_key key ≡ true
      own g m =
          let same =
            (text_eq_iff g.hash (env.key_hash key)).0
              (find_holds (λ (x : Garbage). text_eq x.hash (env.key_hash key)) db.garbage g m) in
          let its = All-find _ _ db.garbage g filed m in
          (text_eq_iff g.object_key key).1 (apart g.object_key key (sym its ∙ same))

  drop-Queued :
      (row : Request) (code : Code) (now : ℕ) (db : Db)
      → IsFiled env db
      → Queued env db (drop_artifact env row code now db)
  unfolding drop_artifact
  drop-Queued row code now db filed = by_key (key_of row)
    where
      by_key :
          (key : Option Text)
          → Queued env db
              (elim key [ none ↦ ok db | some k ↦ enqueue_garbage env k (ended code) now none db ])
      by_key none = record { later = db; result = refl; requests = refl; filed = filed }
      by_key (some k) = enqueue-Queued k (ended code) now none db filed

  -- The end of a row that the table has.
  terminate-ok :
      (row found : Request) (code : Code) (clock : ℕ) (at : Times) (db : Db)
      → IsFiled env db
      → row_at row.id db.requests ≡ some found
      → (later : Db) × (terminate env row as_expired code clock at db
          ≡ ok (end_request as_expired code found, later))
        × IsFiled env later
  unfolding terminate update_request fail_runs
  terminate-ok row found code clock at db filed e =
      let queued = drop-Queued row code (at garbage_queued) db filed in
      let failed = fail_runs row.org_id row.id code clock queued.later in
      let here : row_at row.id failed.requests ≡ some found =
        subst (λ rows. row_at row.id rows ≡ some found) (sym queued.requests) e in
      (
        record failed {
          requests = update_many (has_id row.id) (end_request as_expired code) failed.requests;
        },
        ap
              (λ r. r >>= (λ d.
                update_request row.id (end_request as_expired code)
                  (fail_runs row.org_id row.id code clock d)))
              queued.result
            ∙ update_request-ok row.id (end_request as_expired code) failed found here,
        queued.filed,
      )

  pub expire_one-ok :
      (clock : ℕ) (row : Request) (at : Times) (db : Db)
      → IsFiled env db
      → row_at row.id db.requests ≡ some row
      → is_due clock row ≡ true
      → (later : Db) × (expire_one env clock at row db ≡ ok (1, later))
        × (later.requests
            ≡ update_many (has_id row.id) (end_request as_expired expired_code) db.requests)
        × IsFiled env later
  unfolding expire_one expire_row
  expire_one-ok clock row at db filed e due =
      let (later, result, kept) = terminate-ok row row expired_code (at ended_at) at db filed e in
      let lock = lock-found db.requests row e in
      let waiting : (is_expired row.status || ltb clock row.expires_at) ≡ false = ground arith in
      (
        later,
        rw (lock, waiting, due, result, expire_one, expire_row) refl,
        (terminate-requests env row as_expired expired_code (at ended_at) at db result).0,
        kept,
      )

-- Ending the one row under an id takes it off the due ones.
pub count-ended :
    (clock id : ℕ) (rows : List Request) (row : Request)
    → Unique rows
    → row_at id rows ≡ some row
    → is_due clock row ≡ true
    → suc
        (count (is_due clock) (update_many (has_id id) (end_request as_expired expired_code) rows))
      ≡ count (is_due clock) rows
count-ended clock id [] row u e due = cc
count-ended clock id (r ∷ rows) row (new, u) e due = elim (Bool-cases (has_id id r)) [
  | inl hit ↦
      let same = found_first id r row rows e hit in
      let its = subst (λ (x : Request). is_due clock x ≡ true) same due in
      rw
        (
          hit,
          update_none id (end_request as_expired expired_code) rows (no_other id r rows new hit),
        )
        (ground arith)
  | inr miss ↦
      let rest = count-ended clock id rows row u (found_rest id r row rows e miss) due in
      rw miss (ground arith)
]

-- The row under another id stays.
pub row_at-ended :
    (id other : ℕ) (f : Request → Request) (rows : List Request) (row : Request)
    → ((r : Request) → (f r).id ≡ r.id)
    → row_at id rows ≡ some row
    → has_id other row ≡ false
    → row_at id (update_many (has_id other) f rows) ≡ some row
row_at-ended id other f rows row same e apart =
    find-update_many (has_id id) (has_id other) f rows row (λ r. ap (λ k. k == id) (same r)) e
    ∙ ap (λ b. some (if b then f row else row)) apart
