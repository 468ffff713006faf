-- ===== src/Payjoin/Asset/Balanced.antt =====
-- The inputs that `asset_select` chooses pay for the user's outputs and the change.
use breez_sdk_liquid.Base.{
  ℕ, ◌+◌, ◌%◌, ◌≤◌, String, Bool, false, ◌&&◌, all, Option, some, none, List, [], ◌∷◌, ◌++◌, ◌≡◌,
  refl, inl, inr, arith, if◌then◌else◌, ltb, leb, sum, Bool-cases, add_u64, sub_u64, u64_mod,
}
use breez_sdk_liquid.Base.Text.{str_eq, str_eq→eq}
use breez_sdk_liquid.Base.Result.{Result, ok, err}
use breez_sdk_liquid.Model.Errors.{AnyError}
use breez_sdk_liquid.Payjoin.Amounts.{InOut, Amounts, add_all}
use breez_sdk_liquid.Payjoin.Amounts.Total.{total, amount, add_all-amount}
use breez_sdk_liquid.Payjoin.Asset.{
  AssetSelectRequest, AssetSelectResult, has_value, of_asset, values_of, pay_with, pay_if_selected,
  select_asset, join, select_assets, with_request, asset_select,
}
use breez_sdk_liquid.Payjoin.Range.{utxo_select_best}
use breez_sdk_liquid.Payjoin.Select.{sum_u64}

total-append : (a : String) (xs ys : List InOut) → total a (xs ++ ys) ≡ total a xs + total a ys
total-append a [] ys = omega arith
total-append a (x ∷ xs) ys = omega (arith, total-append a xs ys)

total-of_asset :
    (a b : String) (vs : List ℕ) → total a (of_asset b vs) ≡ (if str_eq b a then sum vs else 0)
total-of_asset a b [] = ground arith
total-of_asset a b (v ∷ vs) = ground (arith, total-of_asset a b vs)

sum_u64-mod : (xs : List ℕ) → sum_u64 xs ≡ sum xs % u64_mod
unfolding sum_u64 add_u64
sum_u64-mod [] = omega arith
sum_u64-mod (x ∷ xs) = omega (arith, sum_u64-mod xs)

-- The inputs of an asset are the target and the change, up to the wrap-around.
abbrev pub Pays : String → String → ℕ → List InOut × List InOut → Type 0
Pays a b target (inputs, changes) =
    total a inputs % u64_mod ≡ ((if str_eq b a then target else 0) + total a changes) % u64_mod

change_of : String → ℕ → List InOut
unfolding sub_u64
change_of b n = if ltb 0 n then record { asset_id = b; value = n } ∷ [] else []

total-change_of : (a b : String) (n : ℕ) → total a (change_of b n) ≡ (if str_eq b a then n else 0)
unfolding change_of
total-change_of a b n = ground arith

of_asset-Pays :
    (a b : String) (target : ℕ) (selected : List ℕ)
    → target ≤ sum_u64 selected
    → Pays a b target (of_asset b selected, change_of b (sub_u64 (sum_u64 selected) target))
unfolding sub_u64
of_asset-Pays a b target selected h =
    let s = sum_u64-mod selected in
    let o = total-of_asset a b selected in
    let c = total-change_of a b (sub_u64 (sum_u64 selected) target) in
    elim (Bool-cases (str_eq b a)) [
      | inl same ↦ rw (o, c, same) (omega arith)
      | inr other ↦ rw (o, c, other) refl
    ]

pay_with-Pays :
    (a b : String) (target : ℕ) (selected : List ℕ) {paid : List InOut × List InOut}
    → pay_with b target selected ≡ ok paid
    → Pays a b target paid
unfolding pay_with change_of
pay_with-Pays a b target selected {paid} h = elim (Bool-cases (leb target (sum_u64 selected))) [
  | inr less ↦ absurd (cc)
  | inl enough ↦
      let e : (of_asset b selected, change_of b (sub_u64 (sum_u64 selected) target)) ≡ paid = cc in
      rw (← e) (of_asset-Pays a b target selected (ground arith))
]

if_selected-Pays :
    (a b : String) (target : ℕ) (found : Option (Option (List ℕ))) {paid : List InOut × List InOut}
    → pay_if_selected b target found ≡ some (ok paid)
    → Pays a b target paid
if_selected-Pays a b target none h = cc
if_selected-Pays a b target (some none) h = cc
if_selected-Pays a b target (some (some selected)) h = pay_with-Pays a b target selected (cc)

select_asset-Pays :
    (a b : String) (target : ℕ) (wallet : List InOut) {paid : List InOut × List InOut}
    → select_asset wallet b target ≡ some (ok paid)
    → Pays a b target paid
unfolding select_asset
select_asset-Pays a b target wallet {paid} h =
    elim (Bool-cases (ltb (sum_u64 (values_of b wallet)) target)) [
      | inl less ↦ absurd (cc)
      | inr enough ↦
          if_selected-Pays a b target (utxo_select_best target (values_of b wallet))
            (rw enough at h)
    ]

join-eq :
    (x y : Option (Result AnyError (List InOut × List InOut))) {paid : List InOut × List InOut}
    → join x y ≡ some (ok paid)
    → (p q : List InOut × List InOut) × (x ≡ some (ok p))
      × (y ≡ some (ok q))
      × (paid ≡ (p.0 ++ q.0, p.1 ++ q.1))
join-eq none y h = cc
join-eq (some (err failure)) y h = cc
join-eq (some (ok p)) none h = cc
join-eq (some (ok p)) (some (err failure)) h = cc
join-eq (some (ok p)) (some (ok q)) h = (p, q, refl, refl, cc)

all_pay :
    (fee_asset a : String) (wallet : List InOut) (amounts : Amounts)
    {paid : List InOut × List InOut}
    → str_eq fee_asset a ≡ false
    → select_assets fee_asset wallet amounts ≡ some (ok paid)
    → total a paid.0 % u64_mod ≡ (amount a amounts + total a paid.1) % u64_mod
unfolding select_assets
all_pay fee_asset a wallet [] {paid} other h = let e : ([], []) ≡ paid = cc in rw (← e) refl
all_pay fee_asset a wallet ((b, target) ∷ amounts) {paid} other h =
    elim (Bool-cases (str_eq b fee_asset)) [
      | inl is_fee ↦
          let e : b ≡ fee_asset = str_eq→eq b fee_asset is_fee in
          let ih = all_pay fee_asset a wallet amounts {paid = paid} other (rw is_fee at h) in
          rw (e, other) (omega (arith, ih))
      | inr not_fee ↦
          let (p, q, x, y, e) =
            join-eq (select_asset wallet b target) (select_assets fee_asset wallet amounts)
              {paid = paid} (rw not_fee at h) in
          let first = select_asset-Pays a b target wallet {paid = p} x in
          let ih = all_pay fee_asset a wallet amounts {paid = q} other y in
          rw e (omega (arith, first, ih, total-append a p.0 q.0, total-append a p.1 q.1))
    ]

with_request-eq :
    (request : AssetSelectRequest) (amounts : Amounts)
    (paid : Option (Result AnyError (List InOut × List InOut))) {r : AssetSelectResult}
    → with_request request amounts paid ≡ some (ok r)
    → paid ≡ some (ok (r.asset_inputs, r.change_outputs))
with_request-eq request amounts none h = cc
with_request-eq request amounts (some (err failure)) h = cc
with_request-eq request amounts (some (ok (inputs, changes))) h = cc

-- In every asset but the one for the fee, the inputs that `asset_select` chooses are what the
-- user's outputs and the change outputs add up to, up to the wrap-around of the sums.
pub asset_select-balanced :
    (asset_lt : String → String → Bool) (request : AssetSelectRequest) (asset : String)
    {r : AssetSelectResult}
    → asset_select asset_lt request ≡ some (ok r)
    → str_eq request.fee_asset asset ≡ false
    → total asset r.asset_inputs % u64_mod
      ≡ (total asset request.user_outputs + total asset r.change_outputs) % u64_mod
unfolding asset_select
asset_select-balanced asset_lt request asset {r} h other =
    let amounts = add_all asset_lt request.user_outputs [] in
    let sane = all has_value request.wallet_utxos && all has_value request.user_outputs in
    elim (Bool-cases sane) [
      | inr insane ↦ absurd (cc)
      | inl fine ↦
          let paid = with_request-eq request amounts _ {r = r} (rw fine at h) in
          let all_paid =
            all_pay request.fee_asset asset request.wallet_utxos amounts
              {paid = (r.asset_inputs, r.change_outputs)} other paid in
          omega (arith, all_paid, add_all-amount asset_lt asset request.user_outputs [])
    ]
