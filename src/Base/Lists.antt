-- ===== src/Base/Lists.antt =====
-- Lists measured and indexed by native numbers, under the library's names, and Rust's
-- `iter().find`, `iter().filter` and `iter().any` with a Boolean test.
use Prim.Native.Nat.{ℕ, zero, suc, ◌+◌}
use mathlib.Core.Path.{◌≡◌, refl, sym}
use mathlib.Core.Logic.{◌⊎◌, inl, inr}
use mathlib.Core.Bool.{Bool, true, false, ◌||◌, ◌&&◌}
use mathlib.Core.Option.{Option, none, some}
use mathlib.Core.List.{List, [], ◌∷◌, ◌++◌, Memᴰ}
use native.Mathlib.Omega.{arith}
use breez_sdk_liquid.Base.Tests.{if◌then◌else◌, is_some, Bool-cases}

module _ {ℓ} {A : Type ℓ} where
  abbrev pub length : List A → ℕ
  length [] = 0
  length (x ∷ xs) = suc (length xs)

  abbrev pub get_elem? : List A → ℕ → Option A
  get_elem? [] i = none
  get_elem? (x ∷ xs) zero = some x
  get_elem? (x ∷ xs) (suc i) = get_elem? xs i

  abbrev pub take : ℕ → List A → List A
  take zero xs = []
  take (suc n) [] = []
  take (suc n) (x ∷ xs) = x ∷ take n xs

  abbrev pub drop : ℕ → List A → List A
  drop zero xs = xs
  drop (suc n) [] = []
  drop (suc n) (x ∷ xs) = drop n xs

  abbrev pub find : (A → Bool) → List A → Option A
  find p [] = none
  find p (x ∷ xs) = if p x then some x else find p xs

  abbrev pub filter : (A → Bool) → List A → List A
  filter p [] = []
  filter p (x ∷ xs) = let rest = filter p xs in if p x then x ∷ rest else rest

  abbrev pub any : (A → Bool) → List A → Bool
  any p [] = false
  any p (x ∷ xs) = p x || any p xs

  abbrev pub all : (A → Bool) → List A → Bool
  all p [] = true
  all p (x ∷ xs) = p x && all p xs

  abbrev pub All {κ} : (A → Type κ) → List A → Type κ
  All P [] = Unit
  All P (x ∷ xs) = P x × All P xs

  -- The last item that passes the test: `iter().rev().find(p)`.
  abbrev pub find_last : (A → Bool) → List A → Option A
  find_last p [] = none
  find_last p (x ∷ xs) = elim (find_last p xs) [
    | some y ↦ some y
    | none ↦ if p x then some x else none
  ]

  abbrev pub last? : List A → Option A
  last? [] = none
  last? (x ∷ xs) = elim (last? xs) [ some y ↦ some y | none ↦ some x ]

  pub length-append : (xs ys : List A) → length (xs ++ ys) ≡ length xs + length ys
  length-append [] ys = omega arith
  length-append (x ∷ xs) ys = omega (arith, length-append xs ys)

abbrev pub sum : List ℕ → ℕ
sum [] = 0
sum (x ∷ xs) = x + sum xs

pub sum-append : (xs ys : List ℕ) → sum (xs ++ ys) ≡ sum xs + sum ys
sum-append [] ys = omega arith
sum-append (x ∷ xs) ys = omega (arith, sum-append xs ys)

-- What `find` returns stands in the list and passes the test.
pub find_sound {ℓ} :
    {A : Type ℓ} (p : A → Bool) (xs : List A) {x : A}
    → find p xs ≡ some x
    → Memᴰ x xs × (p x ≡ true)
find_sound p [] h = cc
find_sound p (y ∷ ys) {x} h = elim (Bool-cases (p y)) [
  | inl yes_here ↦ let e : y ≡ x = cc in (Memᴰ.head (sym e), rw (← e) yes_here)
  | inr not_here ↦ let (m, t) = find_sound p ys {x = x} (rw not_here at h) in (Memᴰ.tail m, t)
]

-- The item passes the test and those before it do not.
abbrev pub IsFirst : {A : Type 0} → (A → Bool) → List A → A → Type 0
IsFirst p [] x = ⊥
IsFirst p (y ∷ ys) x = ((y ≡ x) × (p x ≡ true)) ⊎ ((p y ≡ false) × IsFirst p ys x)

-- The first item that passes the test, or no item passes it.
abbrev pub FirstOf : {A : Type 0} → (A → Bool) → List A → Option A → Type 0
FirstOf p xs (some x) = IsFirst p xs x
FirstOf p xs none = All (λ x. p x ≡ false) xs

FirstOf-tail :
    {A : Type 0} (p : A → Bool) (x : A) (xs : List A) (o : Option A)
    → p x ≡ false
    → FirstOf p xs o
    → FirstOf p (x ∷ xs) o
FirstOf-tail p x xs none e h = (e, h)
FirstOf-tail p x xs (some y) e h = inr (e, h)

pub find-FirstOf : {A : Type 0} (p : A → Bool) (xs : List A) → FirstOf p xs (find p xs)
find-FirstOf p [] = tt
find-FirstOf p (x ∷ xs) = elim (Bool-cases (p x)) [
  | inl e ↦ rw e (inl (refl, e))
  | inr e ↦ rw e (FirstOf-tail p x xs (find p xs) e (find-FirstOf p xs))
]

pub find-filter :
    {A : Type 0} (p q : A → Bool) (xs : List A) → find p (filter q xs) ≡ find (λ x. q x && p x) xs
find-filter p q [] = refl
find-filter p q (x ∷ xs) = ground (arith, find-filter p q xs)

pub find_hit :
    {A : Type 0} (p : A → Bool) {x : A} {xs : List A}
    → Memᴰ x xs
    → p x ≡ true
    → is_some (find p xs) ≡ true
find_hit p (Memᴰ.head {x = y} e) h = let t : p y ≡ true = rw (← e) h in rw t
find_hit p (Memᴰ.tail {x = y} m) h = ground (arith, find_hit p m h)
