-- ===== src/Api/AuditLists.antt =====
-- internal/api/handlers/audit_handler.go: the pages of the audit log, over the repository.
use compose_cockpit.Base.{ℕ, String, List}
use compose_cockpit.Base.Results.{Result, ok, err}
use compose_cockpit.Domain.Errors.{Code, text, no_details}
use compose_cockpit.Api.Reply.{Reply, success, failure}
use compose_cockpit.Api.Pages.{PaginationOpts, parse_pagination}
use compose_cockpit.Store.Audits.{LogEntry, Filter, all_rows, of_project}

-- What WritePaginated writes.
pub record Paginated (A : Type 0) : Type 0 where
  pub entries : List A
  pub total : ℕ
  pub opts : PaginationOpts

-- The answer to the entries of the repository; the page that is named is the one that was asked for.
unfoldable pub page_reply :
    PaginationOpts → Result String (List LogEntry × ℕ) → Reply (Paginated LogEntry)
page_reply opts (err e) = failure 500 Code.internal (text "failed to query audit log") no_details
page_reply opts (ok (entries, total)) =
    success 200 (record { entries = entries; total = total; opts = opts })

module _ (repo : Filter → PaginationOpts → Result String (List LogEntry × ℕ)) where
  -- ListAll and ListByProject, by the query values of the request.
  pub list_all : String → String → Reply (Paginated LogEntry)
  unfolding page_reply
  list_all limit offset =
      let opts = parse_pagination limit offset in page_reply opts (repo all_rows opts)

  pub list_by_project : String → String → String → Reply (Paginated LogEntry)
  unfolding page_reply
  list_by_project project limit offset =
      let opts = parse_pagination limit offset in page_reply opts (repo (of_project project) opts)
