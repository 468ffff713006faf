-- ===== src/Base/Text.antt =====
-- Equality of texts and of optional values, as Boolean tests.
use Prim.Native.Char.{code}
use Prim.Native.String.{String}
use mathlib.Core.Path.{◌≡◌, refl, ap}
use mathlib.Core.Bool.{Bool, true, false, ◌&&◌, ◌||◌}
use breez_sdk_liquid.Base.Tests.{◌==◌}
use mathlib.Core.Option.{Option, none, some}
use text.Mathlib.Text.{◌==◌ as string_eq}
use text.Mathlib.TextEquality.{eq_iff}

abbrev pub str_eq : String → String → Bool
str_eq s t = string_eq s t

pub str_eq→eq : (s t : String) → str_eq s t ≡ true → s ≡ t
str_eq→eq s t = (eq_iff s t).0

pub str_eq_refl : (s : String) → str_eq s s ≡ true
str_eq_refl s = (eq_iff s s).1 refl

abbrev pub opt_eq {ℓ} : {A : Type ℓ} → (A → A → Bool) → Option A → Option A → Bool
opt_eq eq none none = true
opt_eq eq (some a) (some b) = eq a b
opt_eq eq none (some _) = false
opt_eq eq (some _) none = false

pub opt_str_eq→eq : (a b : Option String) → opt_eq str_eq a b ≡ true → a ≡ b
opt_str_eq→eq none none h = refl
opt_str_eq→eq none (some b) h = cc
opt_str_eq→eq (some a) none h = cc
opt_str_eq→eq (some a) (some b) h = ap (λ x. some x) (str_eq→eq a b h)

-- `str::starts_with` and `str::contains`
starts_with : String → String → Bool
starts_with s String.[] = true
starts_with String.[] (String.◌∷◌ c t) = false
starts_with (String.◌∷◌ d s) (String.◌∷◌ c t) = code d == code c && starts_with s t

unfoldable pub contains : String → String → Bool
unfolding starts_with
contains String.[] t = starts_with String.[] t
contains (String.◌∷◌ d s) t = starts_with (String.◌∷◌ d s) t || contains s t
