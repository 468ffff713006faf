-- ===== src/Persist/Outgoing.antt =====
-- lib/core/src/persist/sync.rs: the table of changes that the realtime sync has to push.
pub mod Pending
use breez_sdk_liquid.Base.{
  ℕ, String, Bool, not, ◌||◌, Option, some, none, List, [], ◌∷◌, ◌++◌, if◌then◌else◌, unwrap_or,
  find, filter, ltb,
}
use breez_sdk_liquid.Base.Text.{str_eq}
use breez_sdk_liquid.Base.Result.{Result, ok, err}
use breez_sdk_liquid.Model.Errors.{AnyError, anyhow}
use breez_sdk_liquid.Persist.{Table, RecordType}

pub record SyncOutgoingChanges : Type 0 where
  pub record_id : String
  pub data_id : String
  pub record_type : RecordType
  pub commit_time : ℕ
  pub updated_fields : Option (List String)

abbrev pub get_sync_outgoing_changes_by_id :
    String → List SyncOutgoingChanges → Option SyncOutgoingChanges
get_sync_outgoing_changes_by_id id rows =
    find (λ (row : SyncOutgoingChanges). str_eq row.record_id id) rows

-- The fields that wait to be pushed: none if a whole record waits, or nothing.
abbrev pub pending_fields : String → List SyncOutgoingChanges → List String
pending_fields id rows = elim (get_sync_outgoing_changes_by_id id rows) [
  | none ↦ []
  | some row ↦ unwrap_or row.updated_fields []
]

-- The fields that a commit names: at least one, since `json_insert` needs a value.
abbrev pub Fields : Type 0
Fields = String × List String

-- New fields come after those that wait, or after nothing if the whole record waits; without fields
-- the whole record has to be pushed.
abbrev pub merged_fields : Option Fields → List String → Option (List String)
merged_fields none waiting = none
merged_fields (some (field, fields)) waiting = some (waiting ++ (field ∷ fields))

-- INSERT OR REPLACE: the record's id is the key, and the id of its data is unique.
abbrev pub replaces : String → String → SyncOutgoingChanges → Bool
replaces record_id data_id row = str_eq row.record_id record_id || str_eq row.data_id data_id

abbrev pub new_change :
    Table → RecordType → String → Option Fields → List SyncOutgoingChanges → SyncOutgoingChanges
new_change table record_type data_id fields rows =
    let id = table.record_id record_type data_id in
    record {
      record_id = id;
      data_id = data_id;
      record_type = record_type;
      commit_time = table.now;
      updated_fields = merged_fields fields (pending_fields id rows);
    }

abbrev pub commit_change :
    Table
    → RecordType
    → String
    → Option Fields
    → List SyncOutgoingChanges
    → List SyncOutgoingChanges
commit_change table record_type data_id fields rows =
    let id = table.record_id record_type data_id in
    if table.sync_enabled
    then filter (λ (row : SyncOutgoingChanges). not (replaces id data_id row)) rows
      ++ (new_change table record_type data_id fields rows ∷ [])
    else rows

abbrev pub remove_sync_outgoing_changes :
    List String → List SyncOutgoingChanges → List SyncOutgoingChanges
remove_sync_outgoing_changes [] rows = rows
remove_sync_outgoing_changes (id ∷ ids) rows =
    remove_sync_outgoing_changes ids
      (filter (λ (row : SyncOutgoingChanges). not (str_eq row.record_id id)) rows)

-- A pull fails if the record was changed after the time that it had read.
abbrev pub check_commit_update : String → ℕ → List SyncOutgoingChanges → Result AnyError (Unit {0})
check_commit_update id last_commit_time rows = elim (get_sync_outgoing_changes_by_id id rows) [
  | none ↦ ok tt
  | some row ↦ if ltb last_commit_time row.commit_time then err anyhow else ok tt
]
