-- ===== src/Downloads/Access/Granted.antt =====
-- When `issueCurrent` issues, and what it leaves, by the conditions of Access/Conditions.
use sme_data_center.Common.{
  ℕ, true, false, ◌&&◌, ◌||◌, Option, some, List, ◌==◌, ◌≡◌, ◌≢◌, ◌↔◌, ◌<◌, refl, sym, ap, ◌∙◌,
  subst, arith, find, length, All,
}
use sme_data_center.Downloads.Schema.{
  RequestStatus, queued, running, succeeded, failed, expired, Entry, Request, Employee, Db, Env,
  Result, ok, is_failed, is_expired, entries_of,
}
use sme_data_center.Downloads.Requests.{Times, row_due}
use sme_data_center.Downloads.Workers.{Actor, Artifact, Current, artifact_of}
use sme_data_center.Downloads.Access.{is_readable, issue_current}
use sme_data_center.Downloads.Access.Guards.{Passes, issue_current-Passes}
use sme_data_center.Downloads.Access.Conditions.{
  IsEmployee, IsAllowed, IsKept, AreReadable, HasArtifact, view_of,
}
use sme_data_center.Downloads.Access.Decided.{
  authority_iff, IsAllowed-iff, content_iff, artifact_iff, option_eq, internal_eq,
}
use sme_data_center.Downloads.Access.Counted.{is_readable_iff}

-- Everything that stands between an actor and what is issued on a request.
pub record Granted {A : Type 0} (issue : Current → Result A) (env : Env) (actor : Actor) (id : ℕ)
    (at : Times) (db : Db) (a : A) : Type 0 where
  pub row : Request
  pub employee : Employee
  pub entries : List Entry
  pub artifact : Option Artifact
  pub found : find (λ (r : Request). r.id == id && r.org_id == actor.org_id) db.requests ≡ some row
  pub own : row.requester_id ≡ actor.id
  pub known : IsEmployee actor db employee
  pub allowed : IsAllowed row.org_id db
  pub parsed : row.manifest ≡ some entries
  pub whole : length entries ≡ row.partition_count
  pub not_failed : row.status ≢ failed
  pub not_expired : row.status ≢ expired
  pub in_time : at row_due < row.expires_at
  pub unchanged : All (IsKept env row db) entries
  pub readable : AreReadable env db employee row entries
  pub holds_artifact : (x : Artifact) → (artifact ≡ some x) ↔ HasArtifact row x
  pub issued : issue (view_of row employee entries artifact) ≡ ok a

ended_iff :
    (s : RequestStatus) → ((is_failed s || is_expired s) ≡ false) ↔ ((s ≢ failed) × (s ≢ expired))
ended_iff queued = (λ h. (λ e. cc, λ e. cc), λ h. refl)
ended_iff running = (λ h. (λ e. cc, λ e. cc), λ h. refl)
ended_iff succeeded = (λ h. (λ e. cc, λ e. cc), λ h. refl)
ended_iff failed = (λ h. cc, λ h. absurd (h.0 refl))
ended_iff expired = (λ h. cc, λ h. absurd (h.1 refl))

parsed_iff :
    (row : Request) (entries : List Entry)
    → (entries_of row ≡ ok entries) ↔ (row.manifest ≡ some entries)
parsed_iff row entries = (λ h. ground arith, λ h. ground arith)

ok_injective : {A : Type 0} (a b : A) → ok a ≡ ok b → a ≡ b
ok_injective a b h = ground arith

module _ {A : Type 0} (issue : Current → Result A) (env : Env) (at : Times) (actor : Actor) (id : ℕ)
    (db : Db) (a : A) where
  Passes-Granted : Passes issue env actor id at db a → Granted issue env actor id at db a
  Passes-Granted g =
      let parsed = (parsed_iff g.row g.entries).0 g.parsed in
      let (not_failed, not_expired) = (ended_iff g.row.status).0 g.in_use.not_ended in
      let seen : g.current ≡ view_of g.row g.employee g.entries (artifact_of g.row) =
        ok_injective _ _ (sym g.view ∙ internal_eq g.row g.employee g.entries parsed) in
      record {
        row = g.row;
        employee = g.employee;
        entries = g.entries;
        artifact = artifact_of g.row;
        found = g.found;
        own = g.own;
        known = (authority_iff actor db g.employee).0 g.known;
        allowed = (IsAllowed-iff g.row.org_id db).0 g.allowed;
        parsed = parsed;
        whole = g.whole;
        not_failed = not_failed;
        not_expired = not_expired;
        in_time = ground (arith, g.in_use.in_time);
        unchanged = (content_iff env g.row g.entries db parsed).0 g.unchanged;
        readable =
            (is_readable_iff env g.row g.employee (artifact_of g.row) db g.entries).0
              (subst (λ c. is_readable env g.employee c db ≡ true) seen g.readable);
        holds_artifact = artifact_iff g.row;
        issued = subst (λ c. issue c ≡ ok a) seen g.issued;
      }

  Granted-Passes : Granted issue env actor id at db a → Passes issue env actor id at db a
  Granted-Passes g =
      let same : g.artifact ≡ artifact_of g.row = option_eq g.artifact (artifact_of g.row) (λ x. (
        λ h. (artifact_iff g.row x).1 ((g.holds_artifact x).0 h),
        λ h. (g.holds_artifact x).1 ((artifact_iff g.row x).0 h),
      )) in
      record {
        row = g.row;
        employee = g.employee;
        entries = g.entries;
        current = view_of g.row g.employee g.entries g.artifact;
        found = g.found;
        own = g.own;
        known = (authority_iff actor db g.employee).1 g.known;
        allowed = (IsAllowed-iff g.row.org_id db).1 g.allowed;
        parsed = (parsed_iff g.row g.entries).1 g.parsed;
        whole = g.whole;
        in_use = record {
          not_ended = (ended_iff g.row.status).1 (g.not_failed, g.not_expired);
          in_time = ground (arith, g.in_time);
        };
        unchanged = (content_iff env g.row g.entries db g.parsed).1 g.unchanged;
        view =
            internal_eq g.row g.employee g.entries g.parsed
            ∙ ap (λ x. ok (view_of g.row g.employee g.entries x)) (sym same);
        readable = (is_readable_iff env g.row g.employee g.artifact db g.entries).1 g.readable;
        issued = g.issued;
      }

  -- `issueCurrent` issues exactly where the request is the actor's own, the actor is an employee of
  -- the organization who is not disabled, the organization is not suspended, the manifest parses and
  -- has as many entries as the request counts, the request has not failed or expired and is in time,
  -- the organization has the partition of each entry as it was captured, and as many captured
  -- partitions as there are entries can be read by the employee now, within the dates and the stores
  -- of the scope (counted up to one more than the limit of the request); it issues on that view of
  -- the request, and leaves the database as it is.
  pub issue_current_iff :
      (later : Db)
      → (issue_current issue env actor id at db ≡ ok (ok a, later))
        ↔ (Granted issue env actor id at db a × (later ≡ db))
  issue_current_iff later =
      let passes = issue_current-Passes issue env at actor id db a later in
      (
        λ h. let (p, same) = passes.0 h in (Passes-Granted p, same),
        λ h. passes.1 (Granted-Passes h.0, h.1),
      )
