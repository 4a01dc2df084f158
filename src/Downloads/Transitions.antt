-- ===== src/Downloads/Transitions.antt =====
-- The abstract view of the repository of partition downloads: the table of requests alone, and the
-- steps that it may take. Runs, garbage and the code's order of checks are left out.
pub mod Rules
pub mod Updates
pub mod Transactions
use sme_data_center.Common.{
  ℕ, ◌≤◌, Bool, true, false, not, ◌&&◌, Option, none, some, List, [], ◌∷◌, ◌==◌, leb, ◌≡◌, ◌⊎◌,
  find, update_many, any,
}
use sme_data_center.Downloads.Schema.{RequestStatus, queued, succeeded, Code, Request, is_live}
use sme_data_center.Downloads.Requests.{Ending, end_request}
use sme_data_center.Downloads.Workers.{Artifact, start, progress, hold_artifact}
use sme_data_center.Downloads.Prepare.{is_keyed}

abbrev pub has_id : ℕ → Request → Bool
has_id id row = row.id == id

abbrev pub row_at : ℕ → List Request → Option Request
row_at id rows = find (has_id id) rows

-- A row as it is created: nothing is done yet, and it is live unless there is nothing to do.
pub record IsNew (row : Request) : Type 0 where
  pub status : (row.status ≡ queued) ⊎ (row.status ≡ succeeded × row.partition_count ≡ 0)
  pub nothing_done : row.completed ≡ 0
  pub no_artifact : row.object_key ≡ none

infix 40 ◌⇒◌ ◌⇒*◌
pub data ◌⇒◌ : List Request → List Request → Type 0 where
  creates :
      {rows : List Request} (row : Request)
      → any (has_id row.id) rows ≡ false
      → any (is_keyed row.org_id row.requester_id row.idempotency_key) rows ≡ false
      → IsNew row
      → rows ⇒ row ∷ rows
  begins :
      {rows : List Request} (id : ℕ) (row : Request)
      → row_at id rows ≡ some row
      → is_live row.status ≡ true
      → rows ⇒ update_many (has_id id) start rows
  advances :
      {rows : List Request} (id : ℕ) (row : Request) (n : ℕ)
      → row_at id rows ≡ some row
      → is_live row.status ≡ true
      → row.completed ≤ n
      → n ≤ row.partition_count
      → rows ⇒ update_many (has_id id) (progress n) rows
  finishes :
      {rows : List Request} (id : ℕ) (row : Request) (artifact : Artifact)
      → row_at id rows ≡ some row
      → is_live row.status ≡ true
      → artifact.expires_at ≤ row.expires_at
      → rows ⇒ update_many (has_id id) (hold_artifact artifact) rows
  ends :
      {rows : List Request} (id : ℕ) (ending : Ending) (code : Code)
      → rows ⇒ update_many (has_id id) (end_request ending code) rows

pub data ◌⇒*◌ : List Request → List Request → Type 0 where
  here : {rows : List Request} → rows ⇒* rows
  next : {xs ys zs : List Request} → xs ⇒ ys → ys ⇒* zs → xs ⇒* zs
