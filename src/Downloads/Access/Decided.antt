-- ===== src/Downloads/Access/Decided.antt =====
-- The tests of `issueCurrent` decide the conditions of Access/Conditions, but for those on the
-- partitions that can be read, which Access/Counted has.
use sme_data_center.Common.{
  ℕ, Bool, true, false, Option, none, some, List, ◌==◌, ◌≡◌, ◌↔◌, refl, sym, ap, ◌∙◌, arith, find,
  All, if◌then◌else◌, all_iff, ==_iff, and_iff, Option-cases, inl, inr, all,
}
use sme_data_center.Downloads.Schema.{
  Scope, Entry, Partition, Request, Employee, AuthorizationState, Db, Env, ok, same,
}
use sme_data_center.Downloads.Requests.{
  effective_order_scope, is_unchanged, partition_of, is_current, content_current,
}
use sme_data_center.Downloads.Prepare.{authority}
use sme_data_center.Downloads.Workers.{Actor, Artifact, public_status, artifact_of, internal}
use sme_data_center.Downloads.Access.{is_suspended, actor_of}
use sme_data_center.Downloads.Access.Conditions.{
  IsEmployee, IsAllowed, or_legacy, AsCaptured, IsKept, HasArtifact, view_of,
}

pub authority_iff :
    (actor : Actor) (db : Db) (e : Employee)
    → (authority actor.id actor.org_id db ≡ ok e) ↔ IsEmployee actor db e
unfolding authority
authority_iff actor db e = (λ h. ground arith, λ h. ground (arith, h.found, h.enabled))

pub IsAllowed-iff : (org_id : ℕ) (db : Db) → (is_suspended org_id db ≡ false) ↔ IsAllowed org_id db
unfolding is_suspended
IsAllowed-iff org_id db =
    elim (Option-cases (find (λ (x : AuthorizationState). x.org_id == org_id) db.states)) [
      | inl none_there ↦ (λ h s e. cc, λ h. rw (none_there, is_suspended) refl)
      | inr (s, found) ↦ (λ h t e. ground arith, λ h. rw (found, is_suspended) (h s found))
    ]

pub some_injective : {A : Type 0} (a b : A) → ◌≡◌ {A = Option A} (some a) (some b) → a ≡ b
some_injective a b h = ground arith

same_iff : (a b : Option ℕ) → (same a b ≡ true) ↔ (a ≡ b)
same_iff none none = (λ h. refl, λ h. refl)
same_iff none (some b) = (λ h. cc, λ h. cc)
same_iff (some a) none = (λ h. cc, λ h. cc)
same_iff (some a) (some b) = (λ h. ground arith, λ h. ground arith)

effective_eq :
    (env : Env) (dataset : ℕ) (a : Option ℕ)
    → effective_order_scope env dataset a
      ≡ (if dataset == env.in_store_orders then some (or_legacy env a) else none)
unfolding effective_order_scope
effective_eq env dataset none = refl
effective_eq env dataset (some s) = refl

-- Order scopes agree as far as the data set has one.
order_scope_iff :
    (env : Env) (dataset : ℕ) (a b : Option ℕ)
    → (same (effective_order_scope env dataset a) (effective_order_scope env dataset b) ≡ true)
      ↔ (dataset ≡ env.in_store_orders → or_legacy env a ≡ or_legacy env b)
order_scope_iff env dataset a b =
    rw (effective_eq env dataset a, effective_eq env dataset b)
      (by_test (dataset == env.in_store_orders) refl)
  where
    by_test :
        (t : Bool)
        → dataset == env.in_store_orders ≡ t
        → (same
              (if t then some (or_legacy env a) else none)
              (if t then some (or_legacy env b) else none)
            ≡ true)
          ↔ (dataset ≡ env.in_store_orders → or_legacy env a ≡ or_legacy env b)
    by_test true has = (
      λ h e. (==_iff (or_legacy env a) (or_legacy env b)).0 h,
      λ h. (==_iff (or_legacy env a) (or_legacy env b)).1 (h ((==_iff _ _).0 has)),
    )
    by_test false has_none = (λ h e. absurd (cc (sym has_none ∙ (==_iff _ _).1 e)), λ h. refl)

-- The conjunction of `is_unchanged`, taken apart.
unchanged_iff :
    (env : Env) (scope : Scope) (e : Entry) (p : Partition)
    → (is_unchanged env scope e p ≡ true) ↔ (
        (((((((((((p.dataset ≡ scope.dataset)
                            × (same
                                  (effective_order_scope env p.dataset p.entry.order_scope)
                                  (effective_order_scope env scope.dataset e.order_scope)
                                ≡ true))
                          × (p.enterprise_key ≡ scope.enterprise_key))
                        × (p.entry.store_key ≡ e.store_key))
                      × (p.entry.store_name ≡ e.store_name))
                    × (p.entry.merchant_id ≡ e.merchant_id))
                  × (p.entry.enterprise_name ≡ e.enterprise_name))
                × (p.entry.business_date ≡ e.business_date))
              × (p.entry.object_key ≡ e.object_key))
            × (p.entry.checksum ≡ e.checksum))
          × (p.entry.byte_size ≡ e.byte_size))
        × (p.entry.row_count ≡ e.row_count))
unfolding is_unchanged
unchanged_iff env scope e p =
    (and_iff
      (and_iff
        (and_iff
          (and_iff
            (and_iff
              (and_iff
                (and_iff
                  (and_iff
                    (and_iff (and_iff (and_iff (==_iff _ _) (λ h. h, λ h. h)) (==_iff _ _))
                      (==_iff _ _))
                    (==_iff _ _))
                  (same_iff _ _))
                (==_iff _ _))
              (==_iff _ _))
            (==_iff _ _))
          (==_iff _ _))
        (==_iff _ _))
      (==_iff _ _))

-- The order scopes are compared by the data sets of the partition and of the scope, which agree.
scopes_agree :
    (env : Env) (a b : Option ℕ) (here there : ℕ)
    → here ≡ there
    → same (effective_order_scope env here a) (effective_order_scope env here b)
      ≡ same (effective_order_scope env here a) (effective_order_scope env there b)
scopes_agree env a b here there e =
    ap (λ d. same (effective_order_scope env here a) (effective_order_scope env d b)) e

captured_iff :
    (env : Env) (scope : Scope) (e : Entry) (p : Partition)
    → (is_unchanged env scope e p ≡ true) ↔ AsCaptured env scope e p
captured_iff env scope e p = (
  λ h.
      let (
        (
          (
            (
              (
                (
                  (((((dataset, order), enterprise_key), store_key), store_name), merchant),
                  enterprise_name,
                ),
                date,
              ),
              key,
            ),
            checksum,
          ),
          bytes,
        ),
        rows,
      ) =
        (unchanged_iff env scope e p).0 h in
      record {
        dataset = dataset;
        order_scope = (order_scope_iff env p.dataset p.entry.order_scope e.order_scope).0 (
            scopes_agree env p.entry.order_scope e.order_scope p.dataset scope.dataset dataset
            ∙ order);
        enterprise_key = enterprise_key;
        store_key = store_key;
        store_name = store_name;
        merchant_id = merchant;
        enterprise_name = enterprise_name;
        business_date = date;
        object_key = key;
        checksum = checksum;
        byte_size = bytes;
        row_count = rows;
      },
  λ h.
      let scoped =
        sym (scopes_agree env p.entry.order_scope e.order_scope p.dataset scope.dataset h.dataset)
        ∙ (order_scope_iff env p.dataset p.entry.order_scope e.order_scope).1 h.order_scope in
      (unchanged_iff env scope e p).1 (
        (
          (
            (
              (
                (
                  (
                    ((((h.dataset, scoped), h.enterprise_key), h.store_key), h.store_name),
                    h.merchant_id,
                  ),
                  h.enterprise_name,
                ),
                h.business_date,
              ),
              h.object_key,
            ),
            h.checksum,
          ),
          h.byte_size,
        ),
        h.row_count,
      ),
)

IsKept-iff :
    (env : Env) (row : Request) (db : Db) (e : Entry)
    → (is_current env row db e ≡ true) ↔ IsKept env row db e
unfolding is_current
IsKept-iff env row db e = elim (Option-cases (partition_of row.org_id e db)) [
  | inl gone ↦ (λ h. cc (rw (gone, is_current) at h), λ h. ground (arith, gone, h.found))
  | inr (p, found) ↦ (
    λ h. record {
      partition = p;
      found = found;
      kept = (captured_iff env row.scope e p).0 (rw (found, is_current) at h);
    },
    λ h.
        rw (found, is_current)
          (ap (is_unchanged env row.scope e) (some_injective p h.partition (sym found ∙ h.found))
            ∙ (captured_iff env row.scope e h.partition).1 h.kept),
  )
]

pub content_iff :
    (env : Env) (row : Request) (entries : List Entry) (db : Db)
    → row.manifest ≡ some entries
    → (content_current env row db ≡ ok true) ↔ All (IsKept env row db) entries
unfolding content_current
content_iff env row entries db parsed =
    let each : (all (is_current env row db) entries ≡ true) ↔ All (IsKept env row db) entries =
      all_iff (is_current env row db) (IsKept env row db) (IsKept-iff env row db) entries in
    let opened : content_current env row db ≡ ok (all (is_current env row db) entries) =
      ground arith in
    (λ h. each.0 (ground arith), λ h. opened ∙ ap (λ b. ok b) (each.1 h))

pub artifact_iff : (row : Request) (a : Artifact) → (artifact_of row ≡ some a) ↔ HasArtifact row a
unfolding artifact_of
artifact_iff row a = (
  λ h. ground arith,
  λ h.
      ground
        (arith, h.object_key, h.byte_size, h.checksum, h.some_key, h.some_checksum, h.expires_at),
)

pub option_eq : {A : Type 0} (x y : Option A) → ((a : A) → (x ≡ some a) ↔ (y ≡ some a)) → x ≡ y
option_eq none none h = refl
option_eq none (some b) h = (h b).1 refl
option_eq (some a) y h = sym ((h a).0 refl)

pub internal_eq :
    (row : Request) (e : Employee) (entries : List Entry)
    → row.manifest ≡ some entries
    → internal row (actor_of e) ≡ ok (view_of row e entries (artifact_of row))
unfolding internal public_status
internal_eq row e entries parsed = rw parsed refl
