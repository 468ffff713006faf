-- ===== src/Ledger.antt =====
-- What the handlers of receive and chain swaps promise about claims, without the details of the rows:
-- a ledger of which swap is claimed by which transaction, and of the claims that were broadcast.
pub mod View
use breez_sdk_liquid.Base.{
  String, Bool, true, Option, some, none, List, ◌∷◌, ◌≡◌, map, All, any, if◌then◌else◌,
}
use breez_sdk_liquid.Base.Text.{str_eq}

pub record Ledger : Type 0 where
  -- for each swap its id and its claim transaction
  pub claims : List (String × Option String)
  -- the claims that were broadcast, the latest first
  pub broadcasts : List String

abbrev pub mark : String → String → String × Option String → String × Option String
mark id tx claim = if str_eq claim.0 id then (claim.0, some tx) else claim

abbrev pub HasSwap : String → List (String × Option String) → Type 0
HasSwap id claims = any (λ (claim : String × Option String). str_eq claim.0 id) claims ≡ true

-- No swap with the id is claimed.
abbrev pub IsOpen : String → List (String × Option String) → Type 0
IsOpen id claims =
    All (λ (claim : String × Option String). str_eq claim.0 id ≡ true → claim.1 ≡ none) claims

abbrev pub claimed_by : String → String → Ledger → Ledger
claimed_by id tx l = record { claims = map (mark id tx) l.claims; broadcasts = tx ∷ l.broadcasts }

infix 40 ◌⇒*◌
-- The one step of a ledger: a swap that is not claimed is claimed, and the claim is broadcast.
pub data ◌⇒*◌ (l : Ledger) : Ledger → Type 0 where
  as_before : l ⇒* l
  then_claims :
      {m : Ledger} (id tx : String)
      → l ⇒* m
      → HasSwap id m.claims
      → IsOpen id m.claims
      → l ⇒* claimed_by id tx m

pub ⇒*-trans : {l m n : Ledger} → l ⇒* m → m ⇒* n → l ⇒* n
⇒*-trans h as_before = h
⇒*-trans h (then_claims id tx k e o) = then_claims id tx (⇒*-trans h k) e o
