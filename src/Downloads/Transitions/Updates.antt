-- ===== src/Downloads/Transitions/Updates.antt =====
-- An update by an id, in a table with unique ids, changes the one row that is found under it.
use sme_data_center.Common.{
  ℕ, ◌≤◌, Bool, true, false, some, List, [], ◌∷◌, ◌≡◌, refl, sym, ◌∙◌, ap, inl, inr, arith, subst,
  All, update_many, any, count, Bool-cases, ==_iff,
}
use sme_data_center.Downloads.Schema.{Request}
use sme_data_center.Downloads.Transitions.{has_id, row_at}
use sme_data_center.Downloads.Transitions.Rules.{Unique}

module _ (id : ℕ) where
  pub found_first :
      (r row : Request) (rows : List Request)
      → row_at id (r ∷ rows) ≡ some row
      → has_id id r ≡ true
      → row ≡ r
  found_first r row rows e hit = ground arith

  pub found_rest :
      (r row : Request) (rows : List Request)
      → row_at id (r ∷ rows) ≡ some row
      → has_id id r ≡ false
      → row_at id rows ≡ some row
  found_rest r row rows e miss = ground arith

  pub no_other :
      (r : Request) (rows : List Request)
      → any (has_id r.id) rows ≡ false
      → has_id id r ≡ true
      → any (has_id id) rows ≡ false
  no_other r rows new hit = ap (λ k. any (has_id k) rows) (sym ((==_iff r.id id).0 hit)) ∙ new

module _ (id : ℕ) (f : Request → Request) where
  -- An update that meets no row changes nothing.
  pub update_none :
      (rows : List Request) → any (has_id id) rows ≡ false → update_many (has_id id) f rows ≡ rows
  update_none [] h = refl
  update_none (r ∷ rows) h = ground (arith, update_none rows)

  pub All-update_one :
      (P : Request → Type 0) (rows : List Request) (row : Request)
      → Unique rows
      → row_at id rows ≡ some row
      → (P row → P (f row))
      → All P rows
      → All P (update_many (has_id id) f rows)
  All-update_one P [] row unique e keep h = h
  All-update_one P (r ∷ rows) row (new, unique) e keep (p, h) = elim (Bool-cases (has_id id r)) [
    | inl hit ↦
        let same = found_first id r row rows e hit in
        rw hit (
          subst (λ x. P (f x)) same (keep (subst P (sym same) p)),
          subst (All P) (sym (update_none rows (no_other id r rows new hit))) h,
        )
    | inr miss ↦
        rw miss (p, All-update_one P rows row unique (found_rest id r row rows e miss) keep h)
  ]

  -- A test that the update passes only where it passed before is passed no more often.
  pub count-update_one :
      (q : Request → Bool) (rows : List Request) (row : Request)
      → Unique rows
      → row_at id rows ≡ some row
      → (q (f row) ≡ true → q row ≡ true)
      → count q (update_many (has_id id) f rows) ≤ count q rows
  count-update_one q [] row unique e keep = omega arith
  count-update_one q (r ∷ rows) row (new, unique) e keep = elim (Bool-cases (has_id id r)) [
    | inl hit ↦
        let same = found_first id r row rows e hit in
        let kept : q (f r) ≡ true → q r ≡ true =
          subst (λ x. q (f x) ≡ true → q x ≡ true) same keep in
        rw (hit, update_none rows (no_other id r rows new hit)) (ground (arith, kept))
    | inr miss ↦
        let rest = count-update_one q rows row unique (found_rest id r row rows e miss) keep in
        rw miss (ground arith)
  ]
