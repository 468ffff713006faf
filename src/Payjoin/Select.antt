-- ===== src/Payjoin/Select.antt =====
-- lib/core/src/payjoin/utxo_select/mod.rs: the two simple selections of coins. Sums wrap around at
-- 64 bits.
pub mod Sound
use breez_sdk_liquid.Base.{
  ℕ, ◌+◌, Bool, Option, some, none, List, [], ◌∷◌, if◌then◌else◌, ltb, leb, take, add_u64,
}

-- `iter().sum::<u64>()`
unfoldable pub sum_u64 : List ℕ → ℕ
sum_u64 [] = 0
sum_u64 (x ∷ xs) = add_u64 x (sum_u64 xs)

unfoldable pub utxo_select_fixed : ℕ → ℕ → List ℕ → Option (List ℕ)
utxo_select_fixed target_value target_utxo_count utxos =
    let selected_utxos = take target_utxo_count utxos in
    if ltb (sum_u64 selected_utxos) target_value then none else some selected_utxos

-- The loop of `utxo_select_basic` from the value that is selected: the coins that it adds, and the
-- value in the end.
unfoldable pub select_until : ℕ → ℕ → List ℕ → List ℕ × ℕ
select_until target_value selected_value [] = ([], selected_value)
select_until target_value selected_value (utxo ∷ utxos) =
    let value = add_u64 selected_value utxo in
    let rest = select_until target_value value utxos in
    if leb target_value value then (utxo ∷ [], value) else (utxo ∷ rest.0, rest.1)

unfoldable pub utxo_select_basic : ℕ → List ℕ → Option (List ℕ)
utxo_select_basic target_value utxos =
    let (selected_utxos, selected_value) =
      if ltb 0 target_value then select_until target_value 0 utxos else ([], 0) in
    if ltb selected_value target_value then none else some selected_utxos
