-- ===== src/Monitor/Declared.antt =====
-- Declaring a page-table page and removing one: how each ends, and what has changed then.
use cki_artifact.Base.{
  ℕ, ◌^◌, ◌≤◌, ◌<◌, ◌≡◌, ◌≢◌, refl, ap, fun_ext, arith, ◌⊎◌, inl, inr, true, false, ◌==◌,
  Bool-cases, if_cases, List, ◌∷◌,
}
use cki_artifact.Monitor.State.{
  PageType, unused, rank, Machine, Monitor, Event, invlpg, Run, done, bug, fault, spin, and_then,
  ◌>>◌, update, mmu_lock_acquire, mmu_lock_release,
}
use cki_artifact.Monitor.Walk.{get_pge_vaddr}
use cki_artifact.Monitor.Pages.{
  init_declared_page, declare_frame, remove_frame, sva_declare_page, sva_remove_page,
}
use cki_artifact.Monitor.Frames.{target, get_page_desc_ptr-cases}

-- Storing what an entry holds changes nothing.
update_same : (f : ℕ → ℕ) (a : ℕ) → update f a (f a) ≡ f
update_same f a =
    fun_ext λ j. elim (Bool-cases (a == j)) [ inl e ↦ rw e (ap f (ground arith)) | inr e ↦ rw e ]

abbrev pub retyped : Monitor → (frame : ℕ) → PageType → List Event → Monitor
retyped s frame t log = record s { types = update s.types frame t; log = log; mmu_lock = false }

module _ (m : Machine) (paddr : ℕ) where
  init_declared_page-same :
      (s : Monitor)
      → (log : List Event) × (init_declared_page m paddr s ≡ done tt (record s { log = log }))
  unfolding init_declared_page
  init_declared_page-same s = elim (Bool-cases (get_pge_vaddr m s (m.phys_to_virt paddr) == 0)) [
    | inl e ↦ (s.log, rw e)
    | inr e ↦ (
      invlpg (m.phys_to_virt paddr) ∷ s.log,
      rw e (
          ap (λ f. done tt (record s { mem = f; log = invlpg (m.phys_to_virt paddr) ∷ s.log }))
            (update_same s.mem (get_pge_vaddr m s (m.phys_to_virt paddr)))),
    )
  ]

  -- How a declaration ends: the page has the type and the lock is free again, or nothing is as it
  -- should be and the kernel stops.
  pub data Declared (t : PageType) (s : Monitor) (r : Run (Unit {0})) : Type 0 where
    declared :
        (log : List Event)
        → target paddr < 2 ^ 23
        → (rank (s.types (target paddr)) ≡ 0) ⊎ (rank (s.types (target paddr)) ≡ rank t)
        → r ≡ done tt (retyped s (target paddr) t log)
        → Declared t s r
    refused :
        (2 ^ 23 ≤ target paddr)
          ⊎ ((rank (s.types (target paddr)) ≢ 0) × (rank (s.types (target paddr)) ≢ rank t))
        → r ≡ bug (record s { mmu_lock = true })
        → Declared t s r
    locked : s.mmu_lock ≡ true → r ≡ spin s → Declared t s r

  abbrev FrameDeclared : PageType → Monitor → Type 0
  FrameDeclared t s =
      ((target paddr < 2 ^ 23)
        × ((rank (s.types (target paddr)) ≡ 0) ⊎ (rank (s.types (target paddr)) ≡ rank t))
        × (declare_frame paddr t s
            ≡ done tt (record s { types = update s.types (target paddr) t })))
      ⊎ (((2 ^ 23 ≤ target paddr)
            ⊎ ((rank (s.types (target paddr)) ≢ 0) × (rank (s.types (target paddr)) ≢ rank t)))
          × (declare_frame paddr t s ≡ bug s))

  declare_frame-cases : (t : PageType) (s : Monitor) → FrameDeclared t s
  unfolding declare_frame
  declare_frame-cases t s = elim (get_page_desc_ptr-cases paddr) [
    | inr (le, e) ↦ inr (inl le, rw (e, declare_frame))
    | inl (lt, e) ↦ elim (Bool-cases (rank (s.types (target paddr)) == 0)) [
      | inl z ↦ inl (lt, inl (ground arith), rw (e, z, declare_frame))
      | inr nz ↦ elim (Bool-cases (rank (s.types (target paddr)) == rank t)) [
        | inl z' ↦ inl (lt, inr (ground arith), rw (e, nz, z', declare_frame))
        | inr nz' ↦ inr (
          inr ((λ h. absurd (ground arith)), λ h. absurd (ground arith)),
          rw (e, nz, nz', declare_frame),
        )
      ]
    ]
  ]

  -- A declaration either gives the page the type, with the lock free again and neither memory nor
  -- CR3 changed, where the page was unused or had that type; or stops the kernel with the lock
  -- held, where the page has another type or no descriptor; or waits for a lock that is held.
  pub sva_declare_page-Declared :
      (t : PageType) (s : Monitor) → Declared t s (sva_declare_page m paddr t s)
  unfolding sva_declare_page mmu_lock_acquire mmu_lock_release
  sva_declare_page-Declared t s =
      if_cases
        (λ (r : Run (Unit {0})). Declared t s (
          and_then r
            λ _. declare_frame paddr t >> (init_declared_page m paddr >> mmu_lock_release)))
        s.mmu_lock (λ e. locked e refl)
        λ _. unlocked (declare_frame-cases t (record s { mmu_lock = true }))
    where
      unlocked :
          FrameDeclared t (record s { mmu_lock = true })
          → Declared t s (
              and_then
                (declare_frame paddr t (record s { mmu_lock = true }))
                λ _. init_declared_page m paddr >> mmu_lock_release)
      unlocked (inl (lt, free, e)) =
          let (log, e') =
            init_declared_page-same
              (record s { types = update s.types (target paddr) t; mmu_lock = true }) in
          rw (e, e') (declared log lt free refl)
      unlocked (inr (bad, e)) = rw e (refused bad refl)

  -- How a removal ends.
  pub data Removed (s : Monitor) (r : Run (Unit {0})) : Type 0 where
    removed :
        (log : List Event)
        → target paddr < 2 ^ 23
        → 0 < get_pge_vaddr m s (m.phys_to_virt paddr)
        → r ≡ done tt (retyped s (target paddr) unused log)
        → Removed s r
    faulted : (s' : Monitor) → s'.mmu_lock ≡ true → r ≡ fault s' → Removed s r
    locked : s.mmu_lock ≡ true → r ≡ spin s → Removed s r

  abbrev FrameRemoved : Monitor → Type 0
  FrameRemoved s =
      ((log : List Event) × (target paddr < 2 ^ 23)
        × (0 < get_pge_vaddr m s (m.phys_to_virt paddr))
        × (remove_frame m paddr s
            ≡ done tt (record s { types = update s.types (target paddr) unused; log = log })))
      ⊎ ((s' : Monitor) × (s'.mmu_lock ≡ s.mmu_lock) × (remove_frame m paddr s ≡ fault s'))

  remove_frame-cases : (s : Monitor) → FrameRemoved s
  unfolding remove_frame
  remove_frame-cases s = elim (get_page_desc_ptr-cases paddr) [
    | inr (le, e) ↦ inr (s, refl, rw (e, remove_frame))
    | inl (lt, e) ↦ elim (Bool-cases (get_pge_vaddr m s (m.phys_to_virt paddr) == 0)) [
      | inl z ↦
          inr (
            record s { types = update s.types (target paddr) unused },
            refl,
            rw (e, z, remove_frame),
          )
      | inr nz ↦ inl (
        invlpg (m.phys_to_virt paddr) ∷ s.log,
        lt,
        ground arith,
        rw (e, nz, remove_frame)
            (ap
              (λ f. done tt (record s {
                mem = f;
                types = update s.types (target paddr) unused;
                log = invlpg (m.phys_to_virt paddr) ∷ s.log;
              }))
              (update_same s.mem (get_pge_vaddr m s (m.phys_to_virt paddr)))),
      )
    ]
  ]

  pub sva_remove_page-Removed : (s : Monitor) → Removed s (sva_remove_page m paddr s)
  unfolding sva_remove_page mmu_lock_acquire mmu_lock_release
  sva_remove_page-Removed s =
      if_cases
        (λ (r : Run (Unit {0})).
          Removed s (and_then r λ _. remove_frame m paddr >> mmu_lock_release))
        s.mmu_lock (λ e. locked e refl)
        λ _. unlocked (remove_frame-cases (record s { mmu_lock = true }))
    where
      unlocked :
          FrameRemoved (record s { mmu_lock = true })
          → Removed s
              (and_then (remove_frame m paddr (record s { mmu_lock = true })) λ _. mmu_lock_release)
      unlocked (inl (log, lt, there, e)) = rw e (removed log lt there refl)
      unlocked (inr (s', h, e)) = rw e (faulted s' h refl)
