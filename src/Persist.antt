-- ===== src/Persist.antt =====
-- lib/core/src/persist: what the tables of swaps have in common. A table is the list of its rows in
-- the order of the queries; errors of SQLite itself are left out.
pub mod Rows
pub mod Sound
pub mod Once
pub mod Claims
pub mod Outgoing
use breez_sdk_liquid.Base.{
  ℕ, ◌+◌, String, Bool, ◌||◌, Option, List, map, ◌≡◌, if◌then◌else◌, find, [], ◌∷◌, ltb,
}
use breez_sdk_liquid.Base.Text.{str_eq}
use breez_sdk_liquid.Model.{SwapMetadata}

-- The kinds of records that the realtime sync knows.
pub data RecordType : Type 0 where
  receive_record send_record chain_record : RecordType
  last_derivation_index payment_details bolt12_offer : RecordType

-- What surrounds the tables: the hash of an id that stands in the column `id_hash`, whether there is
-- a realtime sync, the hash of a record's kind and id, and the time.
pub record Table : Type 0 where
  pub id_hash : String → String
  pub sync_enabled : Bool
  pub record_id : RecordType → String → String
  pub now : ℕ

-- The bodies of the two AFTER UPDATE triggers of a table of swaps.
abbrev pub raise_version : SwapMetadata → SwapMetadata
raise_version m = record m { version = m.version + 1 }

abbrev pub set_last_updated_at : Table → SwapMetadata → SwapMetadata
set_last_updated_at table m = record m { last_updated_at = table.now }

-- Both triggers fire at an UPDATE. The body of each is an UPDATE too, at which SQLite fires the other
-- one, but not the one that runs already. So the version rises by two.
abbrev pub touch_metadata : Table → SwapMetadata → SwapMetadata
touch_metadata table m =
    let versioned = set_last_updated_at table (raise_version m) in
    raise_version (set_last_updated_at table versioned)

-- A kind of row: its id, and the row with what the trigger writes to it.
pub record Schema (A : Type 0) : Type 0 where
  pub id : A → String
  pub id_hash : String → String
  pub touch : A → A
  pub touch-id : (s : A) → id (touch s) ≡ id s

module _ {A : Type 0} (schema : Schema A) where
  abbrev pub has_id : String → A → Bool
  has_id id s = str_eq (schema.id s) id

  abbrev pub id_or_hash : String → A → Bool
  id_or_hash id s = str_eq (schema.id s) id || str_eq (schema.id_hash (schema.id s)) id

  abbrev pub fetch_by_id : String → List A → Option A
  fetch_by_id id rows = find (id_or_hash id) rows

  -- An UPDATE of the rows that pass the test.
  abbrev pub update_row : (A → Bool) → (A → A) → A → A
  update_row test set s = if test s then schema.touch (set s) else s

  abbrev pub update_where : (A → Bool) → (A → A) → List A → List A
  update_where test set rows = map (update_row test set) rows

-- A new row stands after the rows that are not younger.
abbrev pub insert_by_created_at : {A : Type 0} → (A → ℕ) → A → List A → List A
insert_by_created_at created_at row [] = row ∷ []
insert_by_created_at created_at row (s ∷ rows) =
    let rest = insert_by_created_at created_at row rows in
    if ltb (created_at row) (created_at s) then row ∷ s ∷ rows else s ∷ rest
