-- ===== src/Monitor/Loop.antt =====
-- The loop of the initial walk over the entries of a page.
use cki_artifact.Base.{
  ℕ, zero, suc, ◌+◌, ◌*◌, ◌^◌, ◌≤◌, ◌<◌, ◌≡◌, refl, sym, ap, ◌∙◌, arith, ◌⊎◌, inl, inr, true,
  bit_and, ◌==◌, Bool-cases,
}
use mathlib.Core.Path.{subst}
use cki_artifact.Monitor.State.{
  PageType, rank, Machine, Monitor, DirectMap, done, has, pg_v, pg_frame,
}
use cki_artifact.Monitor.Pages.{for_entries, is_large, walk_entry, declare_ptp_and_walk_pt_entries}
use cki_artifact.Monitor.Frames.{
  target, IsPresent, IsLarge, bit_and-pg_frame, IsPresent-cases, IsLarge-cases,
}
use cki_artifact.Monitor.Layers.{Below, entry}
use cki_artifact.Monitor.Growth.{
  with_types, IsTyped, Grows, Grows-trans, Below-grows, AddsBelow, AddsBelow-trans,
}

-- An entry of a table of a level: what it names has a descriptor, and is a large page or a table
-- one level down.
abbrev pub Under : (levels : ℕ → ℕ) (r e : ℕ) → Type 0
Under levels r e = (target e < 2 ^ 23) × ((IsLarge e × (r ≤ 3)) ⊎ (levels (target e) + 1 ≡ r))

-- The words in memory make a page table in which each page has one level.
abbrev pub IsTree : Machine → Monitor → (levels : ℕ → ℕ) → Type 0
IsTree m s levels =
    (f i : ℕ)
    → f < 2 ^ 23
    → i < 512
    → 2 ≤ levels f
    → IsPresent (entry m s f i)
    → Under levels (levels f) (entry m s f i)

module _ (m : Machine) (direct : DirectMap m) (s : Monitor) (levels : ℕ → ℕ) where
  -- What a call of the walk comes to.
  abbrev pub Walked : (d e : ℕ) → (ℕ → PageType) → Type 0
  Walked d e types =
      (types' : ℕ → PageType) × (declare_ptp_and_walk_pt_entries m d e (with_types s types)
        ≡ done tt (with_types s types'))
      × IsTyped levels types'
      × Grows types types'
      × AddsBelow m s types types'
      × ((is_large d e ≡ true) ⊎ (rank (types' (target e)) ≡ d + 1))

  abbrev pub Walks : ℕ → Type 0
  Walks d =
      (e : ℕ) (types : ℕ → PageType)
      → Under levels (d + 2) e
      → IsTyped levels types
      → Walked d e types

  -- What the loop from an index on comes to, for the page that an entry names.
  abbrev pub Looped : (d e n i : ℕ) → (ℕ → PageType) → Type 0
  Looped d e n i types =
      (types' : ℕ → PageType) × (for_entries n i
          (walk_entry m e (declare_ptp_and_walk_pt_entries m d)) (with_types s types)
        ≡ done tt (with_types s types'))
      × IsTyped levels types'
      × Grows types types'
      × AddsBelow m s types types'
      × ((j : ℕ)
          → i ≤ j
          → j < i + n
          → IsPresent (entry m s (target e) j)
          → Below (with_types s types') (d + 2) (entry m s (target e) j))

  -- One round of the loop.
  abbrev Rounded : (d e i : ℕ) → (ℕ → PageType) → Type 0
  Rounded d e i types =
      (types' : ℕ → PageType) × (walk_entry m e (declare_ptp_and_walk_pt_entries m d) i
          (with_types s types)
        ≡ done tt (with_types s types'))
      × IsTyped levels types'
      × Grows types types'
      × AddsBelow m s types types'
      × (IsPresent (entry m s (target e) i)
          → Below (with_types s types') (d + 2) (entry m s (target e) i))

  same_entry :
      (e i : ℕ) → s.mem (m.phys_to_virt (bit_and e pg_frame) + 8 * i) ≡ entry m s (target e) i
  same_entry e i = ap s.mem (
      sym (direct.contiguous (bit_and e pg_frame) (8 * i))
      ∙ ap (λ t. m.phys_to_virt (t + 8 * i)) (bit_and-pg_frame e))

  pub is_large-small : (d e : ℕ) → is_large d e ≡ true → IsLarge e × (d + 2 ≤ 3)
  is_large-small d e large = elim (IsLarge-cases e) [
    | inl (l, h) ↦ (l, ground arith)
    | inr (l, h) ↦ absurd (ground arith)
  ]

  round_lem :
      (d e i : ℕ) (types : ℕ → PageType)
      → Walks d
      → (IsPresent (entry m s (target e) i) → Under levels (d + 2) (entry m s (target e) i))
      → IsTyped levels types
      → Rounded d e i types
  unfolding walk_entry
  round_lem d e i types walks under typed = elim (IsPresent-cases (entry m s (target e) i)) [
    | inr (absent, h) ↦ (
      types,
      rw (same_entry e i, h) refl,
      typed,
      (λ f used. refl),
      (λ f j hf hj free two present. absurd (omega arith)),
      λ present. absurd (omega arith),
    )
    | inl (present, h) ↦
        walked present h (walks (entry m s (target e) i) types (under present) typed)
  ]
    where
      walked :
          IsPresent (entry m s (target e) i)
          → has (entry m s (target e) i) pg_v ≡ true
          → Walked d (entry m s (target e) i) types
          → Rounded d e i types
      walked present h (types', eq, typed', grows, adds, inl large) = (
        types',
        rw (same_entry e i, h) eq,
        typed',
        grows,
        adds,
        λ _. inl (is_large-small d _ large),
      )
      walked present h (types', eq, typed', grows, adds, inr r) = (
        types',
        rw (same_entry e i, h) eq,
        typed',
        grows,
        adds,
        λ _. inr ((under present).0, omega arith),
      )

  pub loop_lem :
      (d e n i : ℕ) (types : ℕ → PageType)
      → Walks d
      → ((j : ℕ)
          → j < 512
          → IsPresent (entry m s (target e) j)
          → Under levels (d + 2) (entry m s (target e) j))
      → i + n ≤ 512
      → IsTyped levels types
      → Looped d e n i types
  unfolding for_entries
  loop_lem d e zero i types walks under small typed = (
    types,
    refl,
    typed,
    (λ f used. refl),
    (λ f j hf hj free two present. absurd (omega arith)),
    λ j le lt present. absurd (omega arith),
  )
  loop_lem d e (suc n) i types walks under small typed =
      let (t1, eq1, typed1, grows1, adds1, first) =
        round_lem d e i types walks (under i (omega arith)) typed in
      let (t2, eq2, typed2, grows2, adds2, rest) =
        loop_lem d e n (i + 1) t1 walks under (omega arith) typed1 in
      (
        t2,
        rw (eq1, eq2) refl,
        typed2,
        Grows-trans types t1 t2 grows1 grows2,
        AddsBelow-trans m s types t1 t2 grows2 adds1 adds2,
        λ j le lt present. elim (Bool-cases (i == j)) [
          | inr ne ↦ rest j (ground arith) (omega arith) present
          | inl same ↦
              let q : i ≡ j = ground arith in
              Below-grows m s t1 t2 (d + 2) (entry m s (target e) j) (omega arith) grows2 (
                subst (λ x. Below (with_types s t1) (d + 2) (entry m s (target e) x)) q
                  (first (subst (λ x. IsPresent (entry m s (target e) x)) (sym q) present)))
        ],
      )
