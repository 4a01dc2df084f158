-- ===== src/Downloads/Access/Counted.antt =====
-- `isReadable` decides which captured partitions can be read, by the length of the manifest.
use sme_data_center.Common.{
  ℕ, zero, suc, ◌≤◌, ◌+◌, min, Bool, true, false, Option, none, some, List, [], ◌∷◌, ◌==◌, ◌≡◌, ◌↔◌,
  refl, sym, ap, ◌∙◌, subst, arith, find_many, count, length, Any, if◌then◌else◌, leb, any, any_iff,
  map, ==_iff, and_iff, or_iff, Bool-cases, inl, inr,
}
use sme_data_center.Downloads.Schema.{Scope, Entry, Partition, Request, Employee, Db, Env}
use sme_data_center.Downloads.Prepare.{
  insert, sort, take, is_among, is_in_scope, entry_of, manifest,
}
use sme_data_center.Downloads.Workers.{Artifact}
use sme_data_center.Downloads.Access.{is_readable}
use sme_data_center.Downloads.Access.Conditions.{
  IsReadable, Counts, no_more, one_more, skipped, AreReadable, view_of,
}
use sme_data_center.Downloads.Access.Decided.{some_injective}

leb_iff : (a b : ℕ) → (leb a b ≡ true) ↔ (a ≤ b)
leb_iff a b = ground arith

module _ {A : Type 0} (p : A → Bool) (P : A → Type 0) (decides : (x : A) → (p x ≡ true) ↔ P x) where
  count-Counts : (xs : List A) → Counts P xs (count p xs)
  count-Counts [] = no_more
  count-Counts (x ∷ xs) = here (p x) refl (count-Counts xs)
    where
      here :
          (b : Bool)
          → p x ≡ b
          → Counts P xs (count p xs)
          → Counts P (x ∷ xs) ((if b then 1 else 0) + count p xs)
      here true e k = subst (Counts P (x ∷ xs)) (omega arith) (one_more ((decides x).0 e) k)
      here false e k =
          subst (Counts P (x ∷ xs)) (omega arith) (skipped (λ q. cc (sym e ∙ (decides x).1 q)) k)

  Counts-count : {xs : List A} {n : ℕ} → Counts P xs n → count p xs ≡ n
  Counts-count no_more = refl
  Counts-count (one_more {x} {xs} {n} h k) = ground (arith, (decides x).1 h, Counts-count k)
  Counts-count (skipped {x} {xs} {n} h k) = elim (Bool-cases (p x)) [
    | inl hit ↦ absurd (h ((decides x).0 hit))
    | inr miss ↦ ground (arith, Counts-count k)
  ]

length-take : {A : Type 0} (n : ℕ) (xs : List A) → length (take n xs) ≡ min n (length xs)
unfolding take
length-take zero xs = omega arith
length-take (suc n) [] = omega arith
length-take (suc n) (x ∷ xs) = omega (arith, length-take n xs)

length-insert :
    {A : Type 0} (before : A → A → Bool) (x : A) (xs : List A)
    → length (insert before x xs) ≡ suc (length xs)
unfolding insert
length-insert before x [] = refl
length-insert before x (y ∷ ys) = ground (arith, length-insert before x ys)

length-sort :
    {A : Type 0} (before : A → A → Bool) (xs : List A) → length (sort before xs) ≡ length xs
unfolding sort
length-sort before [] = refl
length-sort before (x ∷ xs) =
    length-insert before x (sort before xs) ∙ ap suc (length-sort before xs)

length-map : {A B : Type 0} (f : A → B) (xs : List A) → length (map f xs) ≡ length xs
length-map f [] = refl
length-map f (x ∷ xs) = ap suc (length-map f xs)

length-find_many : {A : Type 0} (p : A → Bool) (xs : List A) → length (find_many p xs) ≡ count p xs
length-find_many p [] = refl
length-find_many p (x ∷ xs) = ground (arith, length-find_many p xs)

length-manifest :
    (env : Env) (employee : Employee) (scope : Scope) (maximum : ℕ) (captured : Option (List ℕ))
    (db : Db)
    → length (manifest env employee scope maximum captured db)
      ≡ min (suc maximum) (count (is_in_scope env db employee scope captured) db.partitions)
unfolding manifest
length-manifest env employee scope maximum captured db =
    length-take (suc maximum) _
    ∙ ap (min (suc maximum)) (
        length-sort _ _
        ∙ length-map (entry_of env) _
        ∙ length-find_many (is_in_scope env db employee scope captured) db.partitions)

any_id_iff :
    (id : ℕ) (entries : List Entry)
    → (any (λ x. x == id) (map (λ (e : Entry). e.id) entries) ≡ true)
      ↔ Any (λ (e : Entry). e.id ≡ id) entries
any_id_iff id [] = (λ h. cc, λ h. absurd h)
any_id_iff id (e ∷ entries) = or_iff (==_iff e.id id) (any_id_iff id entries)

among_iff :
    (column : Option ℕ) (ids : List ℕ)
    → (is_among column ids ≡ true) ↔ ((id : ℕ) × (column ≡ some id) × Any (λ x. x ≡ id) ids)
unfolding is_among
among_iff none ids = (λ h. cc, λ h. cc h.1)
among_iff (some id) ids =
    let found : (any (λ x. x == id) ids ≡ true) ↔ Any (λ x. x ≡ id) ids =
      any_iff (λ x. x == id) (λ x. x ≡ id) (λ x. ==_iff x id) ids in
    (
      λ h. (id, refl, found.0 h),
      λ h. found.1 (subst (λ k. Any (λ x. x ≡ k) ids) (sym (some_injective id h.0 h.1)) h.2),
    )

store_iff :
    (column : Option ℕ) (stores : Option (List ℕ))
    → (elim stores [ none ↦ true | some ids ↦ is_among column ids ] ≡ true)
      ↔ ((ids : List ℕ) → stores ≡ some ids → (id : ℕ) × (column ≡ some id) × Any (λ x. x ≡ id) ids)
store_iff column none = (λ h ids e. cc, λ h. refl)
store_iff column (some ids) = (
  λ h other e.
      subst (λ l. (id : ℕ) × (column ≡ some id) × Any (λ x. x ≡ id) l) (some_injective ids other e)
        ((among_iff column ids).0 h),
  λ h. (among_iff column ids).1 (h ids refl),
)

IsReadable-iff :
    (env : Env) (db : Db) (employee : Employee) (scope : Scope) (entries : List Entry)
    (p : Partition)
    → (is_in_scope env db employee scope (some (map (λ (e : Entry). e.id) entries)) p ≡ true)
      ↔ IsReadable env db employee scope entries p
unfolding is_in_scope is_among
IsReadable-iff env db employee scope entries p =
    let parts =
      and_iff
        (and_iff
          (and_iff
            (and_iff {a = env.readable db employee scope p} (λ h. h, λ h. h)
              (any_id_iff p.entry.id entries))
            (leb_iff scope.start_date p.entry.business_date))
          (leb_iff p.entry.business_date scope.end_date))
        (store_iff p.entry.merchant_id scope.store_ids) in
    (
      λ h.
          let ((((readable, captured), from_start), to_end), of_store) = parts.0 h in
          record {
            readable = readable;
            captured = captured;
            from_start = from_start;
            to_end = to_end;
            of_store = of_store;
          },
      λ h. parts.1 ((((h.readable, h.captured), h.from_start), h.to_end), h.of_store),
    )

-- Where there is no entry, no partition is counted.
none_counted :
    (env : Env) (db : Db) (employee : Employee) (scope : Scope) {ps : List Partition} {n : ℕ}
    → Counts (IsReadable env db employee scope []) ps n
    → n ≡ 0
none_counted env db employee scope no_more = refl
none_counted env db employee scope (one_more h k) = absurd h.captured
none_counted env db employee scope (skipped h k) = none_counted env db employee scope k

module _ (env : Env) (row : Request) (e : Employee) (artifact : Option Artifact) (db : Db) where
  -- The comparison of `isReadable`, without its exception for no entries.
  abbrev ReadsAll : List Entry → Type 0
  ReadsAll entries =
      length (
        manifest env e row.scope row.limits.max_partitions
          (some (map (λ (x : Entry). x.id) entries)) db)
      ≡ length entries

  ReadsAll-iff : (entries : List Entry) → ReadsAll entries ↔ AreReadable env db e row entries
  ReadsAll-iff entries =
      let ids = some (map (λ (x : Entry). x.id) entries) in
      let measured = length-manifest env e row.scope row.limits.max_partitions ids db in
      (
        λ h. record {
          number = count (is_in_scope env db e row.scope ids) db.partitions;
          counted =
              count-Counts (is_in_scope env db e row.scope ids)
                (IsReadable env db e row.scope entries) (IsReadable-iff env db e row.scope entries)
                db.partitions;
          enough = sym measured ∙ h;
        },
        λ h.
            measured
            ∙ ap (min (suc row.limits.max_partitions)) (
                Counts-count (is_in_scope env db e row.scope ids)
                  (IsReadable env db e row.scope entries)
                  (IsReadable-iff env db e row.scope entries) h.counted)
            ∙ h.enough,
      )

  pub is_readable_iff :
      (entries : List Entry)
      → (is_readable env e (view_of row e entries artifact) db ≡ true)
        ↔ AreReadable env db e row entries
  unfolding is_readable
  is_readable_iff [] = (
    λ h.
        let counted =
          count-Counts (is_in_scope env db e row.scope (some [])) (IsReadable env db e row.scope [])
            (IsReadable-iff env db e row.scope []) db.partitions in
        record {
          number = 0;
          counted =
              subst (Counts (IsReadable env db e row.scope []) db.partitions)
                (none_counted env db e row.scope counted) counted;
          enough = omega arith;
        },
    λ h. refl,
  )
  is_readable_iff (x ∷ xs) = (
    λ h. (ReadsAll-iff (x ∷ xs)).0 ((==_iff _ _).0 h),
    λ h. (==_iff _ _).1 ((ReadsAll-iff (x ∷ xs)).1 h),
  )
