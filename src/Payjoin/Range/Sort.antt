-- ===== src/Payjoin/Range/Sort.antt =====
-- Sorting the coins only changes their order.
use mathlib.Core.List.{Permᴰ}
use mathlib.Core.List.Permᴰ
use breez_sdk_liquid.Base.{
  ℕ, Bool, true, false, List, [], ◌∷◌, ◌≡◌, refl, ◌∙◌, arith, sum, leb, if◌then◌else◌,
}
use breez_sdk_liquid.Payjoin.Range.{insert, sort_down}

here_or_later :
    (first : Bool) (x y : ℕ) (ys rest : List ℕ)
    → Permᴰ (x ∷ ys) rest
    → Permᴰ (x ∷ y ∷ ys) (if first then x ∷ y ∷ ys else y ∷ rest)
here_or_later true x y ys rest h = Permᴰ.refl (x ∷ y ∷ ys)
here_or_later false x y ys rest h = Permᴰ.trans (Permᴰ.swap refl refl) (Permᴰ.cons refl h)

insert-Perm : (x : ℕ) (ys : List ℕ) → Permᴰ (x ∷ ys) (insert x ys)
unfolding insert
insert-Perm x [] = Permᴰ.refl (x ∷ [])
insert-Perm x (y ∷ ys) = here_or_later (leb y x) x y ys (insert x ys) (insert-Perm x ys)

pub sort_down-Perm : (xs : List ℕ) → Permᴰ xs (sort_down xs)
unfolding sort_down
sort_down-Perm [] = Permᴰ.nil
sort_down-Perm (x ∷ xs) =
    Permᴰ.trans (Permᴰ.cons refl (sort_down-Perm xs)) (insert-Perm x (sort_down xs))

pub Perm-sum : {xs ys : List ℕ} → Permᴰ xs ys → sum xs ≡ sum ys
Perm-sum Permᴰ.nil = refl
Perm-sum (Permᴰ.cons e h) = let k = Perm-sum h in omega arith
Perm-sum (Permᴰ.swap e d) = omega arith
Perm-sum (Permᴰ.trans h k) = Perm-sum h ∙ Perm-sum k
