-- ===== src/Monitor/Load.antt =====
-- Loading a page table: when the monitor lets CR3 change, and what it then holds.
use cki_artifact.Base.{
  ℕ, ◌^◌, ◌<◌, ◌≡◌, refl, ap, arith, ◌⊎◌, inl, inr, true, false, ◌==◌, Bool-cases, if_cases,
  bit_and, not64, ◌<<<◌, ◌∷◌,
}
use cki_artifact.Base.Masks.{bit_and_mask}
use cki_artifact.Monitor.State.{
  rank, Monitor, load_cr3, Run, done, bug, fault, spin, and_then, ◌>>◌, mmu_lock_acquire,
  mmu_lock_release, load_cr3_register,
}
use cki_artifact.Monitor.Pages.{type_of, check_top, check_root, sva_mm_load_pgtable}
use cki_artifact.Monitor.Frames.{target, get_page_desc_ptr-cases}

-- The page at a frame is declared as a top table.
abbrev pub IsTop : Monitor → (frame : ℕ) → Type 0
IsTop s frame = (frame < 2 ^ 23) × (rank (s.types frame) ≡ 4)

abbrev pub with_table : Monitor → (cr3 : ℕ) → Monitor
with_table s cr3 = record s { cr3 = cr3; log = load_cr3 cr3 ∷ s.log; mmu_lock = false }

-- How a load ends: CR3 holds the value and the lock is free again, or the kernel stops, and it
-- stops only where the monitor is initialised and the page is no top table.
pub data Loaded (cr3 : ℕ) (s : Monitor) (r : Run (Unit {0})) : Type 0 where
  loaded :
      (s.mmu_is_initialized ≡ true → IsTop s (target cr3))
      → r ≡ done tt (with_table s cr3)
      → Loaded cr3 s r
  unloaded :
      s.mmu_is_initialized ≡ true
      → ¬ IsTop s (target cr3)
      → (r ≡ bug (record s { mmu_lock = true })) ⊎ (r ≡ fault (record s { mmu_lock = true }))
      → Loaded cr3 s r
  waits : s.mmu_lock ≡ true → r ≡ spin s → Loaded cr3 s r

-- The frame, without the bit that keeps the translations of the table's processor.
frame_lem : (cr3 : ℕ) → target (bit_and cr3 (not64 (1 <<< 63))) ≡ target cr3
frame_lem cr3 = omega (arith, ap target (bit_and_mask 63 cr3))

-- A check of the table passes, or it stops the kernel.
abbrev RootChecked : (cr3 : ℕ) → Monitor → Run (Unit {0}) → Type 0
RootChecked cr3 s r =
    ((s.mmu_is_initialized ≡ true → IsTop s (target cr3)) × (r ≡ done tt s))
    ⊎ ((s.mmu_is_initialized ≡ true) × (¬ IsTop s (target cr3)) × ((r ≡ bug s) ⊎ (r ≡ fault s)))

check_top-cases :
    (cr3 : ℕ) (s : Monitor)
    → (IsTop s (target cr3) × (check_top cr3 s ≡ done tt s))
      ⊎ ((¬ IsTop s (target cr3)) × ((check_top cr3 s ≡ bug s) ⊎ (check_top cr3 s ≡ fault s)))
unfolding check_top type_of
check_top-cases cr3 s = elim (get_page_desc_ptr-cases (bit_and cr3 (not64 (1 <<< 63)))) [
  | inr (le, e) ↦ inr ((λ (lt, top). absurd (omega (arith, frame_lem cr3))), inr (rw (e, type_of)))
  | inl (lt, e) ↦ elim (Bool-cases (rank (s.types (target cr3)) == 4)) [
    | inl top ↦
        inl ((omega (arith, frame_lem cr3), ground arith), rw (e, type_of, frame_lem cr3, top))
    | inr low ↦
        inr ((λ (lt', top). absurd (ground arith)), inl (rw (e, type_of, frame_lem cr3, low)))
  ]
]

check_root-cases : (cr3 : ℕ) (s : Monitor) → RootChecked cr3 s (check_root cr3 s)
unfolding check_root check_top
check_root-cases cr3 s =
    if_cases (RootChecked cr3 s) s.mmu_is_initialized (λ on. initialized on (check_top-cases cr3 s))
      (λ off. inl ((λ on. absurd (cc (on, off))), refl))
  where
    initialized :
        s.mmu_is_initialized ≡ true
        → (IsTop s (target cr3) × (check_top cr3 s ≡ done tt s))
          ⊎ ((¬ IsTop s (target cr3)) × ((check_top cr3 s ≡ bug s) ⊎ (check_top cr3 s ≡ fault s)))
        → RootChecked cr3 s (check_top cr3 s)
    initialized on (inl (top, e)) = inl ((λ _. top), e)
    initialized on (inr (low, e)) = inr (on, low, e)

-- A load of a page table either sets CR3, with the lock free again and nothing else changed, and
-- then, where the monitor is initialised, the value names a page declared as a top table; or it
-- stops the kernel with the lock held, and then the monitor is initialised and the value names no
-- such page; or it waits for a lock that is held.
pub sva_mm_load_pgtable-Loaded : (cr3 : ℕ) (s : Monitor) → Loaded cr3 s (sva_mm_load_pgtable cr3 s)
unfolding sva_mm_load_pgtable mmu_lock_acquire mmu_lock_release load_cr3_register
sva_mm_load_pgtable-Loaded cr3 s =
    if_cases
      (λ (r : Run (Unit {0})).
        Loaded cr3 s
          (and_then r λ _. check_root cr3 >> (load_cr3_register cr3 >> mmu_lock_release)))
      s.mmu_lock (λ e. waits e refl)
      λ _. unlocked (check_root-cases cr3 (record s { mmu_lock = true }))
  where
    unlocked :
        RootChecked cr3
          (record s { mmu_lock = true })
          (check_root cr3 (record s { mmu_lock = true }))
        → Loaded cr3 s (
            and_then
              (check_root cr3 (record s { mmu_lock = true }))
              λ _. load_cr3_register cr3 >> mmu_lock_release)
    unlocked (inl (top, e)) = rw e (loaded top refl)
    unlocked (inr (on, low, inl e)) = rw e (unloaded on low (inl refl))
    unlocked (inr (on, low, inr e)) = rw e (unloaded on low (inr refl))
