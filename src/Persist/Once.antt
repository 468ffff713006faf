-- ===== src/Persist/Once.antt =====
-- An UPDATE that is meant for one row, and only while that row is free for it.
use breez_sdk_liquid.Base.{
  String, Bool, true, false, ◌&&◌, List, [], ◌∷◌, ◌≡◌, refl, ◌⊎◌, inl, inr, All, Bool-cases, filter,
  length, any, arith,
}
use breez_sdk_liquid.Base.Text.{str_eq, str_eq→eq, str_eq_refl}
use breez_sdk_liquid.Persist.{Schema, has_id, id_or_hash, update_where}
use breez_sdk_liquid.Persist.Rows.{IsValid, NoClash}

pub filter-none :
    {A : Type 0} (p : A → Bool) (ss : List A) → All (λ s. p s ≡ false) ss → filter p ss ≡ []
filter-none p [] h = refl
filter-none p (s ∷ ss) (e, h) = rw (e, filter-none p ss h) refl

module _ {A : Type 0} (schema : Schema A) where
  pub update-none :
      (p : A → Bool) (set : A → A) (ss : List A)
      → All (λ s. p s ≡ false) ss
      → update_where schema p set ss ≡ ss
  update-none p set [] h = refl
  update-none p set (s ∷ ss) (e, h) = rw (e, update-none p set ss h) refl

  -- Every row becomes what the UPDATE makes of it.
  pub update_where-All :
      {P Q : A → Type 0} (p : A → Bool) (set : A → A)
      → ((s : A) → P s → p s ≡ true → Q (schema.touch (set s)))
      → ((s : A) → P s → p s ≡ false → Q s)
      → (ss : List A) → All P ss
      → All Q (update_where schema p set ss)
  update_where-All p set hit miss [] h = tt
  update_where-All p set hit miss (s ∷ ss) (k, h) = elim (Bool-cases (p s)) [
    | inl e ↦ rw e (hit s k e, update_where-All p set hit miss ss h)
    | inr e ↦ rw e (miss s k e, update_where-All p set hit miss ss h)
  ]

  module _ (id : String) (free : A → Bool) where
    abbrev pub is_open : A → Bool
    is_open s = has_id schema id s && free s

    -- No row with the id is free.
    abbrev pub IsTaken : List A → Type 0
    IsTaken rows = All (λ s. is_open s ≡ false) rows

    -- The one row with the id is free.
    abbrev pub IsFree : List A → Type 0
    IsFree rows =
        All (λ (s : A). has_id schema id s ≡ true → free s ≡ true) rows
        × (length (filter is_open rows) ≡ 1)

    apart : (s t : A) → has_id schema id s ≡ true → NoClash schema s t → has_id schema id t ≡ false
    apart s t e (a, b) = elim (Bool-cases (has_id schema id t)) [
      | inr other ↦ other
      | inl same ↦
          let i : schema.id s ≡ id = str_eq→eq (schema.id s) id e in
          let j : schema.id t ≡ id = str_eq→eq (schema.id t) id same in
          let r : str_eq (schema.id s) (schema.id t) ≡ true = rw (i, j) (str_eq_refl id) in
          let clash : id_or_hash schema (schema.id t) s ≡ true = rw r refl in cc
    ]

    others :
        (s : A) (ss : List A)
        → has_id schema id s ≡ true
        → All (NoClash schema s) ss
        → All (λ t. has_id schema id t ≡ false) ss
    others s [] e h = tt
    others s (t ∷ ss) e (n, h) = (apart s t e n, others s ss e h)

    others-IsTaken : (ss : List A) → All (λ t. has_id schema id t ≡ false) ss → IsTaken ss
    others-IsTaken [] h = tt
    others-IsTaken (t ∷ ss) (e, h) = (rw e refl, others-IsTaken ss h)

    others_free :
        (ss : List A)
        → All (λ t. has_id schema id t ≡ false) ss
        → All (λ (t : A). has_id schema id t ≡ true → free t ≡ true) ss
    others_free [] h = tt
    others_free (t ∷ ss) (e, h) = ((λ same. cc), others_free ss h)

    with_row :
        (s : A) (ss : List A)
        → has_id schema id s ≡ true
        → All (λ t. has_id schema id t ≡ false) ss
        → IsTaken (s ∷ ss) ⊎ IsFree (s ∷ ss)
    with_row s ss e h = elim (Bool-cases (free s)) [
      | inr taken ↦ inl (rw (e, taken) refl, others-IsTaken ss h)
      | inl open_now ↦ inr (
        ((λ same. open_now), others_free ss h),
        rw (e, open_now, filter-none is_open ss (others-IsTaken ss h)) refl,
      )
    ]

    with_other :
        (s : A) (ss : List A)
        → has_id schema id s ≡ false
        → IsTaken ss ⊎ IsFree ss
        → IsTaken (s ∷ ss) ⊎ IsFree (s ∷ ss)
    with_other s ss e (inl h) = inl (rw e refl, h)
    with_other s ss e (inr (h, one)) = inr (((λ same. cc), h), rw e one)

    -- In a valid table no row with the id is free, or there is one such row and it is free.
    pub IsValid-open : (rows : List A) → IsValid schema rows → IsTaken rows ⊎ IsFree rows
    IsValid-open [] v = inl tt
    IsValid-open (s ∷ ss) (n, v) = elim (Bool-cases (has_id schema id s)) [
      | inl e ↦ with_row s ss e (others s ss e n)
      | inr e ↦ with_other s ss e (IsValid-open ss v)
    ]

    -- The row that is free is there.
    pub open-any :
        (rows : List A) → length (filter is_open rows) ≡ 1 → any (has_id schema id) rows ≡ true
    open-any [] h = absurd (omega arith)
    open-any (s ∷ ss) h = elim (Bool-cases (has_id schema id s)) [
      | inl e ↦ rw e refl
      | inr e ↦ rw e (open-any ss (rw e at h))
    ]
