-- ===== src/Send/Safety/Version.antt =====
-- Two updates of a send swap that start from the same copy of it.
use breez_sdk_liquid.Base.{
  String, true, false, Option, some, none, List, [], ◌∷◌, ◌≡◌, refl, sym, ap, ◌∙◌, inl, inr, arith,
  Bool-cases, any, if◌then◌else◌,
}
use breez_sdk_liquid.Base.Result.{Result, ok, err}
use breez_sdk_liquid.Persist.{touch_metadata}
use breez_sdk_liquid.Model.{SendSwap}
use breez_sdk_liquid.Model.Errors.{PaymentError, generic}
use breez_sdk_liquid.Send.Store.{Db, Table, update_where}
use breez_sdk_liquid.Send.Store.Insert.{
  conflicts, commit_if_needed, same_version, set_mutable, insert_or_ignore,
  insert_or_update_send_swap,
}

module _ (table : Table) (a b : SendSwap) (same : a.id ≡ b.id)
    (from : a.metadata.version ≡ b.metadata.version) where
  abbrev updated_row : SendSwap → SendSwap
  updated_row s =
      if same_version a s
      then record (set_mutable a s) { metadata = touch_metadata table s.metadata }
      else s

  outdated : (s : SendSwap) → same_version b (updated_row s) ≡ false
  outdated s = ground arith

  still_there : (s : SendSwap) → same_version a s ≡ true → conflicts b (updated_row s) ≡ true
  still_there s h = ground arith

  abbrev updated : List SendSwap → List SendSwap
  updated rows = update_where table (same_version a) (set_mutable a) rows

  all_outdated : (rows : List SendSwap) → any (same_version b) (updated rows) ≡ false
  all_outdated [] = refl
  all_outdated (s ∷ rows) = rw (outdated s) (all_outdated rows)

  one_there :
      (rows : List SendSwap)
      → any (same_version a) rows ≡ true
      → any (conflicts b) (updated rows) ≡ true
  one_there [] h = cc
  one_there (s ∷ rows) h = elim (Bool-cases (same_version a s)) [
    | inl e ↦ rw (still_there s e) refl
    | inr e ↦ ground (arith, one_there rows)
  ]

  commit-swaps :
      (fields : Option (List String)) (id : String) (db : Db)
      → (commit_if_needed table fields id db).swaps ≡ db.swaps
  commit-swaps none id db = refl
  commit-swaps (some []) id db = refl
  commit-swaps (some (field ∷ fields)) id db = refl

  accepted :
      (db db' : Db)
      → insert_or_update_send_swap table a db ≡ (ok tt, db')
      → (rows : List SendSwap) × (any (same_version a) rows ≡ true) × (db'.swaps ≡ updated rows)
  unfolding insert_or_update_send_swap
  accepted db db' h =
      let rows = insert_or_ignore a db.swaps in
      elim (Bool-cases (any (same_version a) rows)) [
        | inr stale ↦ absurd (cc)
        | inl fits ↦
            let e = rw fits at h in
            (
              rows,
              fits,
              ap (λ (r : Result PaymentError (Unit {0}) × Db). r.1.swaps) (sym e)
                  ∙ commit-swaps _ a.id _,
            )
      ]

  rejected :
      (db : Db)
      → any (conflicts b) db.swaps ≡ true
      → any (same_version b) db.swaps ≡ false
      → insert_or_update_send_swap table b db ≡ (err generic, db)
  unfolding insert_or_update_send_swap insert_or_ignore
  rejected db there old = rw (there, old) refl

  -- The second of two updates that start from the same version of a swap is rejected and writes
  -- nothing, since the triggers raise the version of a row with each UPDATE: no update is lost
  -- unseen.
  pub second_update-rejected :
      (db db' : Db)
      → insert_or_update_send_swap table a db ≡ (ok tt, db')
      → insert_or_update_send_swap table b db' ≡ (err generic, db')
  second_update-rejected db db' first =
      let (rows, fits, e) = accepted db db' first in
      rejected db' (rw e (one_there rows fits)) (rw e (all_outdated rows))
