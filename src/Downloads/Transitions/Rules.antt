-- ===== src/Downloads/Transitions/Rules.antt =====
-- How the steps of the abstract view compose, and how a transaction is taken apart into them.
use sme_data_center.Common.{
  ℕ, Bool, true, false, ◌&&◌, if◌then◌else◌, some, List, [], ◌∷◌, ◌==◌, ◌≡◌, refl, arith, subst,
  sym, ap, ◌∙◌, find-any, find, find_holds, ==_iff, update_many, any,
}
use sme_data_center.Downloads.Schema.{Request}
use sme_data_center.Downloads.Transitions.{
  has_id, row_at, ◌⇒◌, ◌⇒*◌, here, next, creates, begins, advances, finishes, ends,
}

pub one : {xs ys : List Request} → xs ⇒ ys → xs ⇒* ys
one step = next step here

pub compose : {xs ys zs : List Request} → xs ⇒* ys → ys ⇒* zs → xs ⇒* zs
compose here later = later
compose (next step rest) later = next step (compose rest later)

-- What every step keeps, every sequence of steps keeps.
pub ⇒*_inv :
    (P : List Request → Type 0)
    → ((xs ys : List Request) → xs ⇒ ys → P xs → P ys)
    → {xs ys : List Request} → xs ⇒* ys
    → P xs
    → P ys
⇒*_inv P keep here p = p
⇒*_inv P keep (next step rest) p = ⇒*_inv P keep rest (keep _ _ step p)

-- Ids are unique.
abbrev pub Unique : List Request → Type 0
Unique [] = Unit
Unique (row ∷ rows) = (any (has_id row.id) rows ≡ false) × Unique rows

any-update_many :
    (id other : ℕ) (f : Request → Request) (rows : List Request)
    → ((r : Request) → (f r).id ≡ r.id)
    → any (has_id id) (update_many (has_id other) f rows) ≡ any (has_id id) rows
any-update_many id other f [] same = refl
any-update_many id other f (row ∷ rows) same =
    ground (arith, any-update_many id other f rows same, same row)

pub update-Unique :
    (other : ℕ) (f : Request → Request) (rows : List Request)
    → ((r : Request) → (f r).id ≡ r.id)
    → Unique rows
    → Unique (update_many (has_id other) f rows)
update-Unique other f [] same h = tt
update-Unique other f (row ∷ rows) same (new, h) = (
  any-update_many _ other f rows same
      ∙ ap (λ k. any (has_id k) rows) (same_id (row.id == other))
      ∙ new,
  update-Unique other f rows same h,
)
  where
    same_id : (b : Bool) → (if b then f row else row).id ≡ row.id
    same_id true = same row
    same_id false = refl

pub step-Unique : {xs ys : List Request} → xs ⇒ ys → Unique xs → Unique ys
step-Unique (creates row fresh unkeyed new) h = (fresh, h)
step-Unique (begins {rows} id row e live) h = update-Unique id _ rows (λ r. refl) h
step-Unique (advances {rows} id row n e live low high) h = update-Unique id _ rows (λ r. refl) h
step-Unique (finishes {rows} id row artifact e live short) h = update-Unique id _ rows (λ r. refl) h
step-Unique (ends {rows} id ending code) h = update-Unique id _ rows (λ r. refl) h

pub lock-row_at :
    (id org_id : ℕ) (rows : List Request) (row : Request)
    → Unique rows
    → find (λ (r : Request). r.id == id && r.org_id == org_id) rows ≡ some row
    → row_at id rows ≡ some row
lock-row_at id org_id [] row h e = e
lock-row_at id org_id (r ∷ rows) row (new, h) e =
    ground (arith, lock-row_at id org_id rows row h, find-any (has_id r.id) rows row)

-- A row that is found is found by its own id.
pub row_at-id :
    (id : ℕ) (rows : List Request) (row : Request)
    → row_at id rows ≡ some row
    → row_at row.id rows ≡ some row
row_at-id id rows row e =
    subst (λ k. row_at k rows ≡ some row)
      (sym ((==_iff row.id id).0 (find_holds (has_id id) rows row e))) e
