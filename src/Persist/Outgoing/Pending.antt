-- ===== src/Persist/Outgoing/Pending.antt =====
-- What a commit does to the changes that wait to be pushed.
use breez_sdk_liquid.Base.Result.{ok, err}
use breez_sdk_liquid.Model.Errors.{anyhow}
use breez_sdk_liquid.Base.{
  ℕ, ltb, if◌then◌else◌, String, true, not, some, none, List, [], ◌∷◌, ◌++◌, ◌≡◌, refl, inl, inr,
  Bool-cases, filter,
}
use breez_sdk_liquid.Base.Text.{str_eq, str_eq_refl}
use breez_sdk_liquid.Persist.{Table, RecordType}
use breez_sdk_liquid.Persist.Outgoing.{
  Fields, SyncOutgoingChanges, get_sync_outgoing_changes_by_id, pending_fields, replaces,
  new_change, commit_change, check_commit_update, remove_sync_outgoing_changes,
}

abbrev kept : String → String → List SyncOutgoingChanges → List SyncOutgoingChanges
kept id data_id rows = filter (λ (row : SyncOutgoingChanges). not (replaces id data_id row)) rows

-- The row that was replaced is not found, so that the new one is.
get-new :
    (id data_id : String) (new : SyncOutgoingChanges)
    → new.record_id ≡ id
    → (rows : List SyncOutgoingChanges)
    → get_sync_outgoing_changes_by_id id (kept id data_id rows ++ (new ∷ [])) ≡ some new
get-new id data_id new e [] = rw (e, str_eq_refl id) refl
get-new id data_id new e (row ∷ rows) = elim (Bool-cases (str_eq row.record_id id)) [
  | inl same ↦ rw same (get-new id data_id new e rows)
  | inr other ↦ elim (Bool-cases (str_eq row.data_id data_id)) [
    | inl clash ↦ rw (other, clash) (get-new id data_id new e rows)
    | inr apart ↦ rw (other, apart) (rw other (get-new id data_id new e rows))
  ]
]

removed-gone :
    (id : String) (rows : List SyncOutgoingChanges)
    → get_sync_outgoing_changes_by_id id
        (filter (λ (row : SyncOutgoingChanges). not (str_eq row.record_id id)) rows)
      ≡ none
removed-gone id [] = refl
removed-gone id (row ∷ rows) = elim (Bool-cases (str_eq row.record_id id)) [
  | inl same ↦ rw same (removed-gone id rows)
  | inr other ↦ rw other (rw other (removed-gone id rows))
]

module _ (table : Table) (kind : RecordType) (data_id : String) where
  -- While there is a sync, a commit of changed fields of a record adds them to those that wait, so
  -- that no field that waits is lost; a commit of the whole record leaves no single field to wait
  -- for; once the changes of the record are removed, nothing of it waits; and the check of a pull
  -- fails if the pull had read an earlier time of commit, and passes if it had read this one.
  pub commit_change-pending :
      (fields : Fields) (last_commit_time : ℕ) (rows : List SyncOutgoingChanges)
      → table.sync_enabled ≡ true
      → let id = table.record_id kind data_id in
        (pending_fields id (commit_change table kind data_id (some fields) rows)
          ≡ pending_fields id rows ++ (fields.0 ∷ fields.1))
        × (pending_fields id (commit_change table kind data_id none rows) ≡ [])
        × (pending_fields id (
              remove_sync_outgoing_changes
                (id ∷ [])
                (commit_change table kind data_id (some fields) rows))
            ≡ [])
        × (check_commit_update id last_commit_time
              (commit_change table kind data_id (some fields) rows)
            ≡ (if ltb last_commit_time table.now then err anyhow else ok tt))
  commit_change-pending fields last_commit_time rows enabled =
      let id = table.record_id kind data_id in
      (
        rw enabled (
            rw
              (
                pending_fields,
                get-new id data_id (new_change table kind data_id (some fields) rows) refl rows,
              )
              refl),
        rw enabled (
            rw
              (
                pending_fields,
                get-new id data_id (new_change table kind data_id none rows) refl rows,
              )
              refl),
        rw (pending_fields, removed-gone id (commit_change table kind data_id (some fields) rows))
            refl,
        rw enabled (
            rw
              (
                check_commit_update,
                get-new id data_id (new_change table kind data_id (some fields) rows) refl rows,
              )
              refl),
      )
