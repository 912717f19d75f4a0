-- ===== src/Monitor/Growth.antt =====
-- What the initial walk adds to the types of the pages, and what it leaves.
use cki_artifact.Base.{
  ℕ, ◌^◌, ◌≤◌, ◌<◌, ◌≡◌, refl, sym, ap, ◌∙◌, arith, ◌⊎◌, inl, inr, ◌==◌, Bool-cases, eq→==,
}
use mathlib.Core.Path.{subst}
use cki_artifact.Monitor.State.{PageType, rank, Machine, Monitor, update}
use cki_artifact.Monitor.Frames.{target, IsPresent}
use cki_artifact.Monitor.Layers.{Below, entry}

abbrev pub with_types : Monitor → (ℕ → PageType) → Monitor
with_types s types = record s { types = types }

-- Each page is unused or has the level that it is meant to have.
abbrev pub IsTyped : (levels : ℕ → ℕ) → (ℕ → PageType) → Type 0
IsTyped levels types = (f : ℕ) → (rank (types f) ≡ 0) ⊎ (rank (types f) ≡ levels f)

-- A page that is in use keeps its level.
abbrev pub Grows : (types types' : ℕ → PageType) → Type 0
Grows types types' = (f : ℕ) → 1 ≤ rank (types f) → rank (types' f) ≡ rank (types f)

pub Grows-trans : (t t' t'' : ℕ → PageType) → Grows t t' → Grows t' t'' → Grows t t''
Grows-trans t t' t'' g g' f used = omega (arith, g f used, g' f (omega (arith, g f used)))

-- A page that has the level that it is given, or is unused.
pub Grows-update :
    (types : ℕ → PageType) (page : ℕ) (t : PageType)
    → (rank (types page) ≡ 0) ⊎ (rank (types page) ≡ rank t)
    → Grows types (update types page t)
Grows-update types page t free f used = elim (Bool-cases (page == f)) [
  | inr ne ↦ rw ne refl
  | inl e ↦ rw e (at_page (ground arith) free)
]
  where
    at_page :
        page ≡ f → (rank (types page) ≡ 0) ⊎ (rank (types page) ≡ rank t) → rank t ≡ rank (types f)
    at_page q (inl z) = absurd (omega (arith, used, z, ap (λ x. rank (types x)) q))
    at_page q (inr z) = omega (arith, z, ap (λ x. rank (types x)) q)

pub IsTyped-update :
    (levels : ℕ → ℕ) (types : ℕ → PageType) (page : ℕ) (t : PageType)
    → IsTyped levels types
    → rank t ≡ levels page
    → IsTyped levels (update types page t)
IsTyped-update levels types page t typed h f = elim (Bool-cases (page == f)) [
  | inr ne ↦ rw ne (typed f)
  | inl e ↦ rw e (inr (h ∙ ap levels (ground arith)))
]

-- The type that a call stores is free to be stored.
pub free_or_same :
    (levels : ℕ → ℕ) (types : ℕ → PageType) (page : ℕ) (t : PageType)
    → IsTyped levels types
    → rank t ≡ levels page
    → (rank (types page) ≡ 0) ⊎ (rank (types page) ≡ rank t)
free_or_same levels types page t typed h = elim (typed page) [
  | inl z ↦ inl z
  | inr e ↦ inr (omega arith)
]

pub rank_stored :
    (types : ℕ → PageType) (page : ℕ) (t : PageType) → rank (update types page t page) ≡ rank t
rank_stored types page t = rw (eq→== page page refl) refl

module _ (m : Machine) (s : Monitor) where
  pub Below-grows :
      (types types' : ℕ → PageType) (r e : ℕ)
      → 2 ≤ r
      → Grows types types'
      → Below (with_types s types) r e
      → Below (with_types s types') r e
  Below-grows types types' r e two grows (inl large) = inl large
  Below-grows types types' r e two grows (inr (lt, next)) =
      inr (lt, omega (arith, grows (target e) (omega (arith, two, next)), next))

  -- The entries of the pages that come into use keep to the order.
  abbrev pub AddsBelow : (types types' : ℕ → PageType) → Type 0
  AddsBelow types types' =
      (f i : ℕ)
      → f < 2 ^ 23
      → i < 512
      → rank (types f) ≡ 0
      → 2 ≤ rank (types' f)
      → IsPresent (entry m s f i)
      → Below (with_types s types') (rank (types' f)) (entry m s f i)

  -- Nothing comes into use above the last level.
  pub AddsBelow-update :
      (types : ℕ → PageType) (page : ℕ) (t : PageType)
      → (rank (types page) ≡ rank t) ⊎ (rank t ≤ 1)
      → AddsBelow types (update types page t)
  AddsBelow-update types page t same f i hf hi free two present = elim (Bool-cases (page == f)) [
    | inr ne ↦ absurd (omega (arith, rw ne at two, free))
    | inl e ↦ absurd (low (ground arith) (rw e at two) same)
  ]
    where
      low : page ≡ f → 2 ≤ rank t → ¬ ((rank (types page) ≡ rank t) ⊎ (rank t ≤ 1))
      low q two' (inl e) = omega (arith, two', e, free, ap (λ x. rank (types x)) q)
      low q two' (inr e) = omega arith

  pub AddsBelow-trans :
      (t t' t'' : ℕ → PageType) → Grows t' t'' → AddsBelow t t' → AddsBelow t' t'' → AddsBelow t t''
  AddsBelow-trans t t' t'' grows adds adds' f i hf hi free two present =
      elim (Bool-cases (rank (t' f) == 0)) [
        | inl z ↦ adds' f i hf hi (ground arith) two present
        | inr used ↦
            let same : rank (t'' f) ≡ rank (t' f) = grows f (ground arith) in
            rw same (
              Below-grows t' t'' _ _ (rw same at two) grows
                (adds f i hf hi free (rw same at two) present))
      ]

  -- The page itself, and the pages that the loop over its entries adds.
  pub AddsBelow-page :
      (page r : ℕ) (t : PageType) (types types' : ℕ → PageType)
      → rank (types' page) ≡ r
      → AddsBelow (update types page t) types'
      → ((j : ℕ)
          → j < 512
          → IsPresent (entry m s page j)
          → Below (with_types s types') r (entry m s page j))
      → AddsBelow types types'
  AddsBelow-page page r t types types' same adds below f i hf hi free two present =
      elim (Bool-cases (page == f)) [
        | inr ne ↦ adds f i hf hi (rw ne free) two present
        | inl e ↦ at_page (ground arith)
      ]
    where
      at_page : page ≡ f → Below (with_types s types') (rank (types' f)) (entry m s f i)
      at_page q =
          subst (λ x. Below (with_types s types') (rank (types' x)) (entry m s x i)) q
            (subst (λ x. Below (with_types s types') x (entry m s page i)) (sym same)
              (below i hi (subst (λ x. IsPresent (entry m s x i)) (sym q) present)))
