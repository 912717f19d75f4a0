-- ===== src/Monitor/Levels.antt =====
-- What a page-table page of a type may hold, and the check of a value by that type.
use cki_artifact.Base.{
  ℕ, ◌+◌, ◌*◌, ◌^◌, ◌≤◌, ◌<◌, ◌≡◌, refl, ap, arith, ◌⊎◌, inl, inr, not, bit_and, ◌==◌, ltb,
  Bool-cases,
}
use cki_artifact.Monitor.State.{
  PageType, unused, l1, l2, l3, l4, rank, Monitor, Run, done, bug, bug_on, fault, and_then,
  pg_frame,
}
use cki_artifact.Monitor.Pages.{assert_page_in_range, type_of, same_type, check_level}
use cki_artifact.Monitor.Frames.{
  target, IsLarge, bit_and-pg_frame, get_page_desc_ptr-cases, IsLarge-cases,
}

-- The number of bytes that an entry of a page of rank 1, 2 or 3 can map at once.
abbrev pub span : PageType → ℕ
span l2 = 2 ^ 21
span l3 = 2 ^ 30
span _ = 2 ^ 12

span-lt : (t : PageType) → span t < 2 ^ 31
span-lt unused = omega arith
span-lt l1 = omega arith
span-lt l2 = omega arith
span-lt l3 = omega arith
span-lt l4 = omega arith

rank-le : (t : PageType) → rank t ≤ 4
rank-le unused = omega arith
rank-le l1 = omega arith
rank-le l2 = omega arith
rank-le l3 = omega arith
rank-le l4 = omega arith

-- What a present entry of a page of a type may hold. An entry of a last-level page maps a page
-- that is no page table; any other points to a page table one level down, or, at the two middle
-- levels, maps a large page. What is mapped ends below the end of memory.
pub data Allowed (s : Monitor) (t : PageType) (val : ℕ) : Type 0 where
  page :
      t ≡ l1
      → target val * 4096 + span l1 < 2 ^ 35
      → rank (s.types (target val)) ≡ 0
      → Allowed s t val
  large : (t ≡ l2) ⊎ (t ≡ l3) → IsLarge val → target val * 4096 + span t < 2 ^ 35 → Allowed s t val
  table :
      2 ≤ rank t
      → ¬ IsLarge val
      → target val < 2 ^ 23
      → rank (s.types (target val)) + 1 ≡ rank t
      → Allowed s t val

-- A check passes, or it stops the kernel, and which of the two is the specification's to say.
pub data Checked (P : Type 0) (s : Monitor) (r : Run (Unit {0})) : Type 0 where
  passes : P → r ≡ done tt s → Checked P s r
  stops : ¬ P → (r ≡ bug s) ⊎ (r ≡ fault s) → Checked P s r

module _ (s : Monitor) (val : ℕ) where
  assert-Checked :
      (size : ℕ)
      → size < 2 ^ 31
      → Checked
          (target val * 4096 + size < 2 ^ 35)
          s
          (assert_page_in_range (bit_and val pg_frame) size s)
  unfolding assert_page_in_range
  assert-Checked size small = elim (Bool-cases (ltb (target val * 4096 + size) (2 ^ 35))) [
    | inl e ↦ rw (bit_and-pg_frame val) (passes (ground arith) (ground arith))
    | inr e ↦ rw (bit_and-pg_frame val) (stops (ground arith) (inl (ground arith)))
  ]

  -- A read of the type behind an entry.
  type_of-cases :
      ((target val < 2 ^ 23) × (type_of val s ≡ done (s.types (target val)) s))
      ⊎ ((2 ^ 23 ≤ target val) × (type_of val s ≡ fault s))
  unfolding type_of
  type_of-cases = elim (get_page_desc_ptr-cases val) [
    | inl (lt, e) ↦ inl (lt, rw (e, type_of))
    | inr (le, e) ↦ inr (le, rw (e, type_of))
  ]

  -- Which constructor of `Allowed` can hold.
  page-inv :
      Allowed s l1 val → (target val * 4096 + span l1 < 2 ^ 35) × (rank (s.types (target val)) ≡ 0)
  page-inv (page e lt free) = (lt, free)
  page-inv (large (inl e) l lt) = absurd (cc e)
  page-inv (large (inr e) l lt) = absurd (cc e)
  page-inv (table two n lt r) = absurd (omega arith)

  large-inv :
      (t : PageType)
      → 2 ≤ rank t
      → IsLarge val
      → Allowed s t val
      → ((t ≡ l2) ⊎ (t ≡ l3)) × (target val * 4096 + span t < 2 ^ 35)
  large-inv t two l (page e lt free) = absurd (omega (arith, ap rank e))
  large-inv t two l (large e l' lt) = (e, lt)
  large-inv t two l (table two' n lt r) = absurd (n l)

  table-inv :
      (t : PageType)
      → 2 ≤ rank t
      → ¬ IsLarge val
      → Allowed s t val
      → (target val < 2 ^ 23) × (rank (s.types (target val)) + 1 ≡ rank t)
  table-inv t two n (page e lt free) = absurd (omega (arith, ap rank e))
  table-inv t two n (large e l lt) = absurd (n l)
  table-inv t two n (table two' n' lt r) = (lt, r)

  unused-inv : ¬ Allowed s unused val
  unused-inv (page e lt free) = cc e
  unused-inv (large (inl e) l lt) = cc e
  unused-inv (large (inr e) l lt) = cc e
  unused-inv (table two n lt r) = omega arith

  page-Checked : Checked (Allowed s l1 val) s (check_level l1 val s)
  unfolding check_level
  page-Checked = elim (assert-Checked (2 ^ 12) (omega arith)) [
    | stops past (inl e) ↦ rw e (stops (λ a. past (page-inv a).0) (inl refl))
    | stops past (inr e) ↦ rw e (stops (λ a. past (page-inv a).0) (inr refl))
    | passes lt e ↦ elim type_of-cases [
      | inr (le, e') ↦ absurd (omega arith)
      | inl (b, e') ↦ elim (Bool-cases (rank (s.types (target val)) == 0)) [
        | inl z ↦ rw (e, e') (passes (page refl lt (ground arith)) (ground arith))
        | inr nz ↦
            rw (e, e')
              (stops (λ a. absurd (ground (arith, (page-inv a).1)))
                (inl (ground (arith, rank-le (s.types (target val))))))
      ]
    ]
  ]

  large-Checked :
      (t : PageType)
      → (t ≡ l2) ⊎ (t ≡ l3)
      → IsLarge val
      → Checked (Allowed s t val) s (assert_page_in_range (bit_and val pg_frame) (span t) s)
  large-Checked t mid l = elim (assert-Checked (span t) (span-lt t)) [
    | passes lt e ↦ passes (large mid l lt) e
    | stops past e ↦ stops (λ a. past (large-inv t (two mid) l a).1) e
  ]
    where
      two : (t ≡ l2) ⊎ (t ≡ l3) → 2 ≤ rank t
      two (inl e) = omega (arith, ap rank e)
      two (inr e) = omega (arith, ap rank e)

  table-Checked :
      (t below : PageType)
      → 2 ≤ rank t
      → rank below + 1 ≡ rank t
      → ¬ IsLarge val
      → Checked (Allowed s t val) s (and_then (type_of val s) λ u. bug_on (not (same_type u below)))
  table-Checked t below two e n = elim type_of-cases [
    | inl (b, e') ↦ elim (Bool-cases (rank (s.types (target val)) == rank below)) [
      | inl z ↦ rw (e', z) (passes (table two n b (ground arith)) refl)
      | inr nz ↦
          rw (e', nz) (stops (λ a. absurd (ground (arith, (table-inv t two n a).1))) (inl refl))
    ]
    | inr (le, e') ↦ rw e' (stops (λ a. absurd (omega (arith, (table-inv t two n a).0))) (inr refl))
  ]

  pub check_level-Checked : (t : PageType) → Checked (Allowed s t val) s (check_level t val s)
  unfolding check_level
  check_level-Checked unused = stops unused-inv (inl refl)
  check_level-Checked l1 = page-Checked
  check_level-Checked l2 = elim (IsLarge-cases val) [
    | inl (l, e) ↦ rw e (large-Checked l2 (inl refl) l)
    | inr (n, e) ↦ rw e (table-Checked l2 l1 (omega arith) (omega arith) (λ l. omega arith))
  ]
  check_level-Checked l3 = elim (IsLarge-cases val) [
    | inl (l, e) ↦ rw e (large-Checked l3 (inr refl) l)
    | inr (n, e) ↦ rw e (table-Checked l3 l2 (omega arith) (omega arith) (λ l. omega arith))
  ]
  check_level-Checked l4 = elim (IsLarge-cases val) [
    | inl (l, e) ↦ rw e (stops (λ a. top_large l (large-inv l4 (omega arith) l a).0) (inl refl))
    | inr (n, e) ↦ rw e (table-Checked l4 l3 (omega arith) (omega arith) (λ l. omega arith))
  ]
    where
      top_large : IsLarge val → (l4 ≡ l2) ⊎ (l4 ≡ l3) → ⊥
      top_large l (inl e) = cc e
      top_large l (inr e) = cc e
