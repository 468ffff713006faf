-- ===== src/Payjoin/Select/Sound.antt =====
-- What `utxo_select_basic` returns.
use breez_sdk_liquid.Base.{
  ℕ, zero, suc, ◌+◌, ◌<◌, ◌≤◌, Option, some, none, List, [], ◌∷◌, ◌++◌, ◌≡◌, refl, inl, inr, arith,
  sum, sum-append, take, length, ltb, leb, Bool-cases, u64_mod, add_u64, add_u64-eq, ltb→lt, ap,
}
use breez_sdk_liquid.Payjoin.Select.{sum_u64, select_until, utxo_select_basic}

pub sum_u64-sum : (xs : List ℕ) → sum xs < u64_mod → sum_u64 xs ≡ sum xs
unfolding sum_u64
sum_u64-sum [] h = refl
sum_u64-sum (x ∷ xs) h = let e = sum_u64-sum xs (omega arith) in rw e (add_u64-eq x (sum xs) h)

-- Coins taken from the front up to the first that brings the value to the target, or all of them.
pub record Until (t v : ℕ) (utxos s : List ℕ) (reached : ℕ) : Type 0 where
  pub rest : List ℕ
  pub splits : s ++ rest ≡ utxos
  pub adds_up : reached ≡ v + sum s
  pub no_shorter : (n : ℕ) → n < length s → v + sum (take n s) < t
  pub all_taken : reached < t → rest ≡ []

first_only : (t v x n : ℕ) → v < t → n < length (x ∷ []) → v + sum (take n (x ∷ [])) < t
first_only t v x zero h k = omega arith
first_only t v x (suc n) h k = omega arith

one_more :
    (t v x : ℕ) (s : List ℕ) (n : ℕ)
    → v < t
    → ((m : ℕ) → m < length s → (v + x) + sum (take m s) < t)
    → n < length (x ∷ s)
    → v + sum (take n (x ∷ s)) < t
one_more t v x s zero h k l = omega arith
one_more t v x s (suc n) h k l = omega (arith, k n (omega arith))

select_until-Until :
    (t v : ℕ) (utxos : List ℕ)
    → v < t
    → v + sum utxos < u64_mod
    → let (s, reached) = select_until t v utxos in Until t v utxos s reached
unfolding select_until
select_until-Until t v [] h b = record {
  rest = [];
  splits = refl;
  adds_up = omega arith;
  no_shorter = λ n k. omega arith;
  all_taken = λ k. refl;
}
select_until-Until t v (x ∷ utxos) h b =
    let e : add_u64 v x ≡ v + x = add_u64-eq v x (omega arith) in
    elim (Bool-cases (leb t (v + x))) [
      | inl enough ↦
          rw (e, enough)
            record {
              rest = utxos;
              splits = refl;
              adds_up = omega arith;
              no_shorter = λ n. first_only t v x n h;
              all_taken = λ k. absurd (ground arith);
            }
      | inr more ↦
          let tail = select_until-Until t (v + x) utxos (ground arith) (omega arith) in
          rw (e, more)
            record {
              rest = tail.rest;
              splits = ap (λ l. x ∷ l) tail.splits;
              adds_up = omega (arith, tail.adds_up);
              no_shorter = λ n. one_more t v x _ n h tail.no_shorter;
              all_taken = tail.all_taken;
            }
    ]

-- Coins from the front that reach the target while no fewer do; or all coins are too few.
abbrev pub Basic : ℕ → List ℕ → Option (List ℕ) → Type 0
Basic t utxos none = sum utxos < t
Basic t utxos (some s) =
    (rest : List ℕ) × (s ++ rest ≡ utxos)
    × (t ≤ sum s)
    × ((n : ℕ) → n < length s → sum (take n s) < t)

too_few :
    {t : ℕ} {utxos s : List ℕ} {reached : ℕ}
    → Until t 0 utxos s reached
    → reached < t
    → sum utxos < t
too_few {s} u h = rw (← u.splits, u.all_taken h) (omega (arith, sum-append s [], u.adds_up))

-- `utxo_select_basic` takes coins from the front, as few as reach the target, and fails only where
-- all of them are too few, given that the sum of the coins fits into 64 bits.
pub utxo_select_basic-Basic :
    (t : ℕ) (utxos : List ℕ) → sum utxos < u64_mod → Basic t utxos (utxo_select_basic t utxos)
unfolding utxo_select_basic
utxo_select_basic-Basic t utxos b = elim (Bool-cases (ltb 0 t)) [
  | inr zero_target ↦
      let z : t ≡ 0 = ground arith in rw z (utxos, refl, omega arith, λ n k. omega arith)
  | inl positive ↦
      let (s, reached) = select_until t 0 utxos in
      let u = select_until-Until t 0 utxos (ltb→lt 0 t positive) (omega arith) in
      elim (Bool-cases (ltb reached t)) [
        | inl less ↦ rw (positive, less) (too_few u (ltb→lt reached t less))
        | inr enough ↦
            rw (positive, enough)
              (u.rest, u.splits, ground (arith, u.adds_up), λ n k. omega (arith, u.no_shorter n k))
      ]
]
