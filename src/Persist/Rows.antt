-- ===== src/Persist/Rows.antt =====
-- Tables compared row by row, and tables in which the id of a row finds that row.
use breez_sdk_liquid.Base.{
  String, Bool, true, false, some, List, [], ◌∷◌, ◌≡◌, refl, if◌then◌else◌, All, Bool-cases, inl,
  inr,
}
use breez_sdk_liquid.Base.Text.{str_eq→eq}
use breez_sdk_liquid.Persist.{Schema, update_where, id_or_hash, fetch_by_id, has_id}

module _ {A : Type 0} where
  -- Two tables with as many rows, each row of the first related to the one at its place.
  pub data Rows (R : A → A → Type 0) : List A → List A → Type 0 where
    no_rows : Rows R [] []
    row : {s t : A} {ss ts : List A} → R s t → Rows R ss ts → Rows R (s ∷ ss) (t ∷ ts)

  pub Rows-refl : {R : A → A → Type 0} → ((s : A) → R s s) → (ss : List A) → Rows R ss ss
  Rows-refl r [] = no_rows
  Rows-refl r (s ∷ ss) = row (r s) (Rows-refl r ss)

  pub Rows-trans :
      {R : A → A → Type 0} {ss ts us : List A}
      → ((s t u : A) → R s t → R t u → R s u)
      → Rows R ss ts
      → Rows R ts us
      → Rows R ss us
  Rows-trans r no_rows k = k
  Rows-trans r (row e h) (row d k) = row (r _ _ _ e d) (Rows-trans r h k)

  pub Rows-map :
      {R Q : A → A → Type 0} {ss ts : List A}
      → ((s t : A) → R s t → Q s t)
      → Rows R ss ts
      → Rows Q ss ts
  Rows-map r no_rows = no_rows
  Rows-map r (row e h) = row (r _ _ e) (Rows-map r h)

  pub All-Rows :
      {R : A → A → Type 0} {P : A → Type 0} {ss ts : List A}
      → ((s t : A) → R s t → P s → P t)
      → Rows R ss ts
      → All P ss
      → All P ts
  All-Rows r no_rows h = tt
  All-Rows r (row e h) (p, ps) = (r _ _ e p, All-Rows r h ps)

  pub Rows-compose :
      {R Q T : A → A → Type 0} {ss ts us : List A}
      → ((s t u : A) → R s t → Q t u → T s u)
      → Rows R ss ts
      → Rows Q ts us
      → Rows T ss us
  Rows-compose r no_rows no_rows = no_rows
  Rows-compose r (row e h) (row d k) = row (r _ _ _ e d) (Rows-compose r h k)

module _ {A : Type 0} (schema : Schema A) where
  update_one :
      (R : A → A → Type 0) (test : Bool) (s t : A)
      → R s s
      → (test ≡ true → R s t)
      → R s (if test then t else s)
  update_one R true s t same set = set refl
  update_one R false s t same set = same

  -- An UPDATE relates each row to what it becomes.
  pub update_where-Rows :
      (R : A → A → Type 0) {P : A → Type 0} (test : A → Bool) (set : A → A)
      → ((s : A) → R s s)
      → ((s : A) → P s → test s ≡ true → R s (schema.touch (set s)))
      → (ss : List A) → All P ss
      → Rows R ss (update_where schema test set ss)
  update_where-Rows R test set same changes [] h = no_rows
  update_where-Rows R test set same changes (s ∷ ss) (p, h) =
      row (update_one R (test s) s (schema.touch (set s)) (same s) (changes s p))
        (update_where-Rows R test set same changes ss h)

  -- Neither row is found under the id of the other.
  abbrev pub NoClash : A → A → Type 0
  NoClash s t =
      (id_or_hash schema (schema.id t) s ≡ false) × (id_or_hash schema (schema.id s) t ≡ false)

  -- The ids are unique, also against the hashes of the ids.
  abbrev pub IsValid : List A → Type 0
  IsValid [] = Unit
  IsValid (s ∷ ss) = All (NoClash s) ss × IsValid ss

  NoClash-Rows :
      {R : A → A → Type 0} (s s' : A) {ts ts' : List A}
      → ((t t' : A) → R t t' → schema.id t ≡ schema.id t')
      → schema.id s ≡ schema.id s'
      → Rows R ts ts'
      → All (NoClash s) ts
      → All (NoClash s') ts'
  NoClash-Rows s s' same e no_rows h = tt
  NoClash-Rows s s' same e (row r rs) ((a, b), h) =
      ((rw (← e, ← same _ _ r) a, rw (← e, ← same _ _ r) b), NoClash-Rows s s' same e rs h)

  pub IsValid-Rows :
      {R : A → A → Type 0} {ss ts : List A}
      → ((s t : A) → R s t → schema.id s ≡ schema.id t)
      → Rows R ss ts
      → IsValid ss
      → IsValid ts
  IsValid-Rows same no_rows h = tt
  IsValid-Rows same (row {s} {t} r rs) (n, h) =
      (NoClash-Rows s t same (same _ _ r) rs n, IsValid-Rows same rs h)

  -- A row that has the id is the one that is found.
  abbrev pub Own : String → List A → A → Type 0
  Own id rows s = has_id schema id s ≡ true → fetch_by_id schema id rows ≡ some s

  Own-tail :
      (id : String) (s : A) (rows rest : List A)
      → All (NoClash s) rest
      → All (Own id rows) rest
      → All (Own id (s ∷ rows)) rest
  Own-tail id s rows [] n h = tt
  Own-tail id s rows (t ∷ rest) ((apart, _), n) (own, h) = (
    (λ e.
        let same : schema.id t ≡ id = str_eq→eq (schema.id t) id e in
        let missed : id_or_hash schema id s ≡ false = rw (← same) apart in rw missed (own e)),
    Own-tail id s rows rest n h,
  )

  pub IsValid-Own : (id : String) (rows : List A) → IsValid rows → All (Own id rows) rows
  IsValid-Own id [] h = tt
  IsValid-Own id (s ∷ rows) (n, h) =
      ((λ e. rw e), Own-tail id s rows rows n (IsValid-Own id rows h))

  -- What is found before has a related row that is found after.
  pub fetch-Rows :
      {R : A → A → Type 0} {ss ts : List A} (id : String) {s : A}
      → ((s t : A) → R s t → schema.id s ≡ schema.id t)
      → Rows R ss ts
      → fetch_by_id schema id ss ≡ some s
      → (t : A) × (fetch_by_id schema id ts ≡ some t) × R s t
  fetch-Rows id same no_rows h = cc
  fetch-Rows id {s} same (row {s = x} {t = y} r rs) h = elim (Bool-cases (id_or_hash schema id x)) [
    | inl hit ↦ let e : x ≡ s = cc in (y, rw (← same _ _ r) (rw hit), rw (← e) r)
    | inr miss ↦
        let (t, found, q) = fetch-Rows id {s = s} same rs (rw miss at h) in
        (t, rw (← same _ _ r) (rw miss found), q)
  ]
