-- ===== src/Ledger/View.antt =====
-- The ledger that a table stands for, and how changes of the rows move it.
use breez_sdk_liquid.Base.{String, true, Option, List, [], ◌∷◌, ◌≡◌, refl, ◌∙◌, inl, inr, map, any}
use mathlib.Core.Path.{subst}
use breez_sdk_liquid.Base.Text.{str_eq}
use breez_sdk_liquid.Base.Exec.Follows.{Order}
use breez_sdk_liquid.Persist.{Schema}
use breez_sdk_liquid.Persist.Rows.{
  Rows, no_rows, row, Rows-refl, Rows-trans, Rows-map, IsValid, IsValid-Rows,
}
use breez_sdk_liquid.Persist.Claims.{SameClaim, ClaimedBy}
use breez_sdk_liquid.Ledger.{
  Ledger, mark, IsOpen, claimed_by, ◌⇒*◌, as_before, then_claims, ⇒*-trans,
}

module _ {A : Type 0} (schema : Schema A) (claim_of : A → Option String) where
  abbrev pub claims_of : List A → List (String × Option String)
  claims_of rows = map (λ (s : A). (schema.id s, claim_of s)) rows

  SameClaim-claims :
      {ss ts : List A} → Rows (SameClaim schema claim_of) ss ts → claims_of ss ≡ claims_of ts
  SameClaim-claims no_rows = refl
  SameClaim-claims (row (i, c) h) = rw (i, c, SameClaim-claims h) refl

  ClaimedBy-IsOpen :
      (id tx : String) {ss ts : List A}
      → Rows (ClaimedBy schema claim_of id tx) ss ts
      → IsOpen id (claims_of ss)
  ClaimedBy-IsOpen id tx no_rows = tt
  ClaimedBy-IsOpen id tx (row (i, inl (e, free, marked)) h) =
      ((λ same. free), ClaimedBy-IsOpen id tx h)
  ClaimedBy-IsOpen id tx (row (i, inr (other, kept)) h) = ((λ same. cc), ClaimedBy-IsOpen id tx h)

  ClaimedBy-claims :
      (id tx : String) {ss ts : List A}
      → Rows (ClaimedBy schema claim_of id tx) ss ts
      → map (mark id tx) (claims_of ss) ≡ claims_of ts
  ClaimedBy-claims id tx no_rows = refl
  ClaimedBy-claims id tx (row (i, inl (e, free, marked)) h) =
      rw (e, ← i, marked, ClaimedBy-claims id tx h) refl
  ClaimedBy-claims id tx (row (i, inr (other, kept)) h) =
      rw (other, ← i, ← kept, ClaimedBy-claims id tx h) refl

  any-claims :
      (id : String) (ss : List A)
      → any (λ (claim : String × Option String). str_eq claim.0 id) (claims_of ss)
        ≡ any (λ (s : A). str_eq (schema.id s) id) ss
  any-claims id [] = refl
  any-claims id (s ∷ ss) = rw (any-claims id ss) refl

  abbrev pub SameId : A → A → Type 0
  SameId s t = schema.id s ≡ schema.id t

  module _ {S : Type 0} (rows_of : S → List A) (broadcasts_of : S → List String) where
    abbrev pub view : S → Ledger
    view s = record { claims = claims_of (rows_of s); broadcasts = broadcasts_of s }

    -- The ledger moves by claims only, and the ids of the rows stay.
    pub record Ledgers (a b : S) : Type 0 where
      pub moved : view a ⇒* view b
      pub same_ids : Rows SameId (rows_of a) (rows_of b)

    pub order : Order (λ (s : S). IsValid schema (rows_of s)) Ledgers
    order = record {
      same = λ s. record { moved = as_before; same_ids = Rows-refl (λ r. refl) (rows_of s) };
      compose = λ h k. record {
        moved = ⇒*-trans h.moved k.moved;
        same_ids = Rows-trans (λ s t u i j. i ∙ j) h.same_ids k.same_ids;
      };
      stays = λ h v. IsValid-Rows schema (λ s t i. i) h.same_ids v;
    }

    -- A change that no claim takes part in.
    pub quiet-Ledgers :
        (a b : S)
        → Rows (SameClaim schema claim_of) (rows_of a) (rows_of b)
        → broadcasts_of b ≡ broadcasts_of a
        → Ledgers a b
    quiet-Ledgers a b rows same = record {
      moved =
          subst (λ (l : Ledger). view a ⇒* l) {x = view a} {y = view b}
            (rw (SameClaim-claims rows, same) refl) as_before;
      same_ids = Rows-map (λ s t (i, c). i) rows;
    }

    pub claimed-Ledgers :
        (id tx : String) (a b : S)
        → any (λ (s : A). str_eq (schema.id s) id) (rows_of a) ≡ true
        → Rows (ClaimedBy schema claim_of id tx) (rows_of a) (rows_of b)
        → broadcasts_of b ≡ tx ∷ broadcasts_of a
        → Ledgers a b
    claimed-Ledgers id tx a b there rows one = record {
      moved =
          subst (λ (l : Ledger). view a ⇒* l) {x = claimed_by id tx (view a)} {y = view b}
            (rw (ClaimedBy-claims id tx rows, one) refl)
            (then_claims id tx as_before (any-claims id (rows_of a) ∙ there)
              (ClaimedBy-IsOpen id tx rows));
      same_ids = Rows-map (λ s t (i, c). i) rows;
    }
