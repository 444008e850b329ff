-- ===== src/Store/Audits/Written.antt =====
-- What was written to the audit log is read again: internal/store/audit_repo.go.
use compose_cockpit.Base.{
  All, String, none, List, [], ◌∷◌, ◌≡◌, refl, same, map, Bool-cases, inl, inr, eq_of_same, sym,
}
use compose_cockpit.Base.Results.{ok}
use compose_cockpit.Store.Audits.{
  LogEntry, nil_if_empty, or_empty, row_of, entry_of, scan_audit_entries, marshal_scope,
  unmarshal_scope,
}

or_empty-nil_if_empty : (s : String) → or_empty (nil_if_empty s) ≡ s
unfolding or_empty nil_if_empty
or_empty-nil_if_empty s = elim (Bool-cases (same s "")) [
  | inl e ↦ rw e (sym (eq_of_same s "" e))
  | inr e ↦ rw e refl
]

module _ (marshal : List String → String) (unmarshal : String → List String) where
  -- JSON reads the scope of the entry back.
  abbrev pub Reads : LogEntry → Type 0
  Reads e = unmarshal_scope marshal unmarshal (marshal_scope marshal unmarshal e.scope) ≡ e.scope

  entry_of-row_of :
      (e : LogEntry) → Reads e → entry_of marshal unmarshal (row_of marshal unmarshal e) ≡ e
  unfolding entry_of row_of nil_if_empty or_empty
  entry_of-row_of e h = λ i. record e {
    user_id = or_empty-nil_if_empty e.user_id i;
    project_id = or_empty-nil_if_empty e.project_id i;
    scope = h i;
    error_code = or_empty-nil_if_empty e.error_code i;
    error_msg = or_empty-nil_if_empty e.error_msg i;
  }

  -- The entries that were written are read from their rows again, in the order of the rows and with
  -- every empty text, if JSON reads their scopes back.
  scan_audit_entries-row_of :
      (entries : List LogEntry)
      → All Reads entries
      → scan_audit_entries marshal unmarshal
          (map (λ e. ok (row_of marshal unmarshal e)) entries)
          none
        ≡ ok entries
  unfolding scan_audit_entries
  scan_audit_entries-row_of [] h = refl
  scan_audit_entries-row_of (e ∷ entries) h =
      rw (scan_audit_entries-row_of entries h.1, entry_of-row_of e h.0) refl
