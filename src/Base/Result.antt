-- ===== src/Base/Result.antt =====
-- Fallible code: Rust's `Result<A, E>`, the `?` operator as `>>=`, and `ensure!` as `ensure`.
use mathlib.Core.Path.{◌≡◌, refl}
use mathlib.Core.Logic.{◌⊎◌, inl, inr}
use mathlib.Core.Bool.{Bool, true, false}
use mathlib.Core.Option.{Option, none, some}

pub data Result (E A : Type 0) : Type 0 where
  err : E → Result E A
  ok : A → Result E A

-- `Result::map_err`, `Result::ok` and `Result::is_ok`
abbrev pub map_err : {E F A : Type 0} → (E → F) → Result E A → Result F A
map_err convert (err failure) = err (convert failure)
map_err convert (ok value) = ok value

abbrev pub to_option : {E A : Type 0} → Result E A → Option A
to_option (err failure) = none
to_option (ok value) = some value

abbrev pub is_ok : {E A : Type 0} → Result E A → Bool
is_ok (err failure) = false
is_ok (ok value) = true

-- `Option::ok_or`
abbrev pub ok_or : {E A : Type 0} → Option A → E → Result E A
ok_or none failure = err failure
ok_or (some value) failure = ok value

abbrev pub ensure : {E : Type 0} → Bool → E → Result E (Unit {0})
ensure false failure = err failure
ensure true failure = ok tt

infixl 5 ◌>>=◌ ◌>>◌
abbrev pub ◌>>=◌ : {E A B : Type 0} → Result E A → (A → Result E B) → Result E B
err failure >>= next = err failure
ok value >>= next = next value

abbrev pub ◌>>◌ : {E B : Type 0} → Result E (Unit {0}) → Result E B → Result E B
first >> second = first >>= λ done. second

pub ensure-eq-ok :
    {E : Type 0} (test : Bool) (failure : E) {u : Unit {0}}
    → ensure test failure ≡ ok u
    → test ≡ true
ensure-eq-ok false failure h = cc
ensure-eq-ok true failure h = refl

pub >>=-eq-ok :
    {E A B : Type 0} (first : Result E A) (next : A → Result E B) {result : B}
    → (first >>= next) ≡ ok result
    → (value : A) × (first ≡ ok value) × (next value ≡ ok result)
>>=-eq-ok (err failure) next h = cc
>>=-eq-ok (ok value) next h = (value, refl, h)

pub Result-cases :
    {E A : Type 0} (r : Result E A) → ((e : E) × (r ≡ err e)) ⊎ ((a : A) × (r ≡ ok a))
Result-cases (err failure) = inl (failure, refl)
Result-cases (ok value) = inr (value, refl)
