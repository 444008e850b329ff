-- ===== src/Store/Audits.antt =====
-- internal/store/audit_repo.go: the audit log in its table. The statements are arguments; a column that
-- may be NULL is an option, and encoding/json writes the scope. The number of a row, which the database
-- gives, is left out, and so are the user's name and the metadata, which are neither written nor read.
pub mod Written
use compose_cockpit.Base.{ℕ, String, Option, none, some, List, [], ◌∷◌, same, if◌then◌else◌}
use compose_cockpit.Base.Results.{Result, ok, err, ◌>>=◌}
use compose_cockpit.Api.Pages.{PaginationOpts, normalize_opts}

-- domain.AuditEntry; the scope is the services of an OpScope.
pub record LogEntry : Type 0 where
  pub user_id : String
  pub project_id : String
  pub operation : String
  pub scope : Option (List String)
  pub status : String
  pub error_code : String
  pub error_msg : String
  pub duration_ms : ℕ
  pub created_at : ℕ

-- The columns of audit_log.
pub record Row : Type 0 where
  pub user_id : Option String
  pub project_id : Option String
  pub operation : String
  pub scope : Option String
  pub status : String
  pub error_code : Option String
  pub error_msg : Option String
  pub duration_ms : ℕ
  pub created_at : ℕ

-- nilIfEmpty
unfoldable pub nil_if_empty : String → Option String
nil_if_empty s = if same s "" then none else some s

-- `if p != nil { s = *p }` for an s that is "".
unfoldable pub or_empty : Option String → String
or_empty none = ""
or_empty (some s) = s

-- The rows of a query: an entry of the table, or the error of a Scan.
abbrev pub Rows : Type 0
Rows = List (Result String Row)

-- The tables that a list is made of.
pub data Filter : Type 0 where
  of_project of_user : String → Filter
  all_rows : Filter

module _ (marshal : List String → String) (unmarshal : String → List String) where
  unfoldable pub marshal_scope : Option (List String) → Option String
  marshal_scope none = none
  marshal_scope (some services) = some (marshal services)

  unfoldable pub unmarshal_scope : Option String → Option (List String)
  unmarshal_scope none = none
  unmarshal_scope (some json) = some (unmarshal json)

  unfoldable pub row_of : LogEntry → Row
  unfolding nil_if_empty marshal_scope
  row_of e = record {
    user_id = nil_if_empty e.user_id;
    project_id = nil_if_empty e.project_id;
    operation = e.operation;
    scope = marshal_scope e.scope;
    status = e.status;
    error_code = nil_if_empty e.error_code;
    error_msg = nil_if_empty e.error_msg;
    duration_ms = e.duration_ms;
    created_at = e.created_at;
  }

  -- LogOperation, by the insertion of a row.
  pub log_operation : (Row → Option String) → LogEntry → Option String
  unfolding row_of
  log_operation insert e = insert (row_of e)

  unfoldable pub entry_of : Row → LogEntry
  unfolding or_empty unmarshal_scope
  entry_of r = record {
    user_id = or_empty r.user_id;
    project_id = or_empty r.project_id;
    operation = r.operation;
    scope = unmarshal_scope r.scope;
    status = r.status;
    error_code = or_empty r.error_code;
    error_msg = or_empty r.error_msg;
    duration_ms = r.duration_ms;
    created_at = r.created_at;
  }

  -- scanAuditEntries: the last argument is `rows.Err()`.
  unfoldable pub scan_audit_entries : Rows → Option String → Result String (List LogEntry)
  unfolding entry_of
  scan_audit_entries [] none = ok []
  scan_audit_entries [] (some e) = err e
  scan_audit_entries (err e ∷ rows) end = err e
  scan_audit_entries (ok r ∷ rows) end = do
    entries ← scan_audit_entries rows end
    ok (entry_of r ∷ entries)

  -- ListByProject, ListByUser and List: a page of entries and the number of all.
  pub list_audits :
      (Filter → Result String ℕ)
      → (Filter → ℕ → ℕ → Result String (Rows × Option String))
      → Filter
      → PaginationOpts
      → Result String (List LogEntry × ℕ)
  unfolding scan_audit_entries normalize_opts
  list_audits count query filter opts = do
    let page = normalize_opts opts
    total ← count filter
    rows ← query filter page.limit page.offset
    entries ← scan_audit_entries rows.0 rows.1
    ok (entries, total)
