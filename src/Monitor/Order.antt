-- ===== src/Monitor/Order.antt =====
-- When declaring a page and removing one keep the order of the levels.
use cki_artifact.Base.{
  ℕ, ◌+◌, ◌^◌, ◌≤◌, ◌<◌, ◌≡◌, ◌≢◌, ◌↔◌, refl, sym, ap, arith, ◌⊎◌, inl, inr, ◌==◌, true, false,
  Bool-cases, eq→==, ne→==, List,
}
use mathlib.Core.Path.{subst}
use cki_artifact.Monitor.State.{PageType, unused, rank, Machine, Monitor, Event, done, update}
use cki_artifact.Monitor.Pages.{sva_declare_page, sva_remove_page}
use cki_artifact.Monitor.Frames.{target, IsPresent, IsLarge}
use cki_artifact.Monitor.Layers.{Below, entry, IsLayered}
use cki_artifact.Monitor.Declared.{
  retyped, Declared, declared, refused, locked, sva_declare_page-Declared, Removed, removed,
  faulted, sva_remove_page-Removed,
}

module _ (m : Machine) (s : Monitor) (page : ℕ) where
  -- The entries of the page itself keep to the order, were it of type `t`.
  abbrev pub EntriesBelow : PageType → Type 0
  EntriesBelow t =
      (i : ℕ)
      → i < 512
      → 2 ≤ rank t
      → IsPresent (entry m s page i)
      → Below (record s { types = update s.types page t }) (rank t) (entry m s page i)

  -- No other table above the last level points to the page.
  abbrev pub IsUnreferenced : Type 0
  IsUnreferenced =
      (f i : ℕ)
      → f < 2 ^ 23
      → i < 512
      → f ≢ page
      → 2 ≤ rank (s.types f)
      → IsPresent (entry m s f i)
      → (IsLarge (entry m s f i) × (rank (s.types f) ≤ 3)) ⊎ (target (entry m s f i) ≢ page)

  module _ (layered : IsLayered m s) (log : List Event) where
    pub retyped-Below :
        (t : PageType) (r e : ℕ)
        → (rank (s.types page) ≡ 0) ⊎ (rank (s.types page) ≡ rank t)
        → 2 ≤ r
        → Below s r e
        → Below (retyped s page t log) r e
    retyped-Below t r e free two (inl large) = inl large
    retyped-Below t r e free two (inr (lt, same)) = inr (
      lt,
      elim (Bool-cases (page == target e)) [
        | inr ne ↦ rw ne same
        | inl eq ↦ rw eq (at_page (ground arith) free)
      ],
    )
      where
        at_page :
            page ≡ target e
            → (rank (s.types page) ≡ 0) ⊎ (rank (s.types page) ≡ rank t)
            → rank t + 1 ≡ r
        at_page q (inl z) = absurd (omega (arith, ap (λ x. rank (s.types x)) q))
        at_page q (inr z) = omega (arith, ap (λ x. rank (s.types x)) q)

    self : (page == page) ≡ true
    self = eq→== page page refl

    declared-IsLayered :
        (t : PageType)
        → page < 2 ^ 23
        → (rank (s.types page) ≡ 0) ⊎ (rank (s.types page) ≡ rank t)
        → IsLayered m (retyped s page t log) ↔ EntriesBelow t
    declared-IsLayered t lt free = (out, back)
      where
        out : IsLayered m (retyped s page t log) → EntriesBelow t
        out l i hi two present = rw self at (l page i lt hi (rw self two) present)

        at_self :
            EntriesBelow t
            → (f i : ℕ) → i < 512
            → page ≡ f
            → 2 ≤ rank t
            → IsPresent (entry m s f i)
            → Below (retyped s page t log) (rank (update s.types page t f)) (entry m s f i)
        at_self below f i hi q two present =
            subst
              (λ x. Below (retyped s page t log) (rank (update s.types page t x)) (entry m s x i)) q
              (rw self (below i hi two (subst (λ x. IsPresent (entry m s x i)) (sym q) present)))

        back : EntriesBelow t → IsLayered m (retyped s page t log)
        back below f i hf hi two present = elim (Bool-cases (page == f)) [
          | inl e ↦ let q : page ≡ f = ground arith in at_self below f i hi q (rw e at two) present
          | inr ne ↦
              rw ne
                (retyped-Below t _ _ free (rw ne at two) (layered f i hf hi (rw ne at two) present))
        ]

    -- Below an entry of another table, with and without the page.
    unlinked :
        (r e : ℕ)
        → 2 ≤ r
        → Below (retyped s page unused log) r e
        → (IsLarge e × (r ≤ 3)) ⊎ (target e ≢ page)
    unlinked r e two (inl large) = inl large
    unlinked r e two (inr (lt, next)) =
        inr λ q. absurd (omega (arith, rw (eq→== page (target e) (sym q)) at next))

    pub linked :
        (r e : ℕ)
        → Below s r e
        → (IsLarge e × (r ≤ 3)) ⊎ (target e ≢ page)
        → Below (retyped s page unused log) r e
    linked r e (inl large) free = inl large
    linked r e (inr next) (inl large) = inl large
    linked r e (inr (lt, next)) (inr other) =
        inr (lt, rw (ne→== page (target e) (λ q. other (sym q))) next)

    removed-IsLayered : page < 2 ^ 23 → IsLayered m (retyped s page unused log) ↔ IsUnreferenced
    removed-IsLayered lt = (out, back)
      where
        out : IsLayered m (retyped s page unused log) → IsUnreferenced
        out l f i hf hi other two present =
            let ne : (page == f) ≡ false = ne→== page f (λ e. other (sym e)) in
            unlinked _ _ two (rw ne at (l f i hf hi (rw ne two) present))

        back : IsUnreferenced → IsLayered m (retyped s page unused log)
        back free f i hf hi two present = elim (Bool-cases (page == f)) [
          | inl e ↦ absurd (omega (arith, rw e at two))
          | inr ne ↦ rw ne (
              linked _ _ (layered f i hf hi (rw ne at two) present)
                (free f i hf hi (λ e. absurd (ground (arith, ne, e))) (rw ne at two) present))
        ]

-- In a state with the levels in order, a declaration of a page that takes place keeps them in order
-- exactly when the entries that the page already holds keep to the order under its new type.
pub sva_declare_page-IsLayered :
    (m : Machine) (paddr : ℕ) (t : PageType) (s s' : Monitor)
    → IsLayered m s
    → sva_declare_page m paddr t s ≡ done tt s'
    → IsLayered m s' ↔ EntriesBelow m s (target paddr) t
sva_declare_page-IsLayered m paddr t s s' layered e = at_end (sva_declare_page-Declared m paddr t s)
  where
    at_end :
        Declared m paddr t s (sva_declare_page m paddr t s)
        → IsLayered m s' ↔ EntriesBelow m s (target paddr) t
    at_end (declared log lt free e') =
        let same : retyped s (target paddr) t log ≡ s' = cc (e, e') in
        subst (λ x. IsLayered m x ↔ EntriesBelow m s (target paddr) t) same
          (declared-IsLayered m s (target paddr) layered log t lt free)
    at_end (refused bad e') = absurd (cc (e, e'))
    at_end (locked h e') = absurd (cc (e, e'))

-- In a state with the levels in order, a removal of a page that takes place keeps them in order
-- exactly when no other table above the last level points to the page.
pub sva_remove_page-IsLayered :
    (m : Machine) (paddr : ℕ) (s s' : Monitor)
    → IsLayered m s
    → sva_remove_page m paddr s ≡ done tt s'
    → IsLayered m s' ↔ IsUnreferenced m s (target paddr)
sva_remove_page-IsLayered m paddr s s' layered e = at_end (sva_remove_page-Removed m paddr s)
  where
    at_end :
        Removed m paddr s (sva_remove_page m paddr s)
        → IsLayered m s' ↔ IsUnreferenced m s (target paddr)
    at_end (removed log lt there e') =
        let same : retyped s (target paddr) unused log ≡ s' = cc (e, e') in
        subst (λ x. IsLayered m x ↔ IsUnreferenced m s (target paddr)) same
          (removed-IsLayered m s (target paddr) layered log lt)
    at_end (faulted s'' h e') = absurd (cc (e, e'))
    at_end (locked h e') = absurd (cc (e, e'))
