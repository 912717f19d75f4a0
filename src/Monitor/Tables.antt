-- ===== src/Monitor/Tables.antt =====
-- The walk in the states that the operations reach: it finds entries of declared tables only.
use cki_artifact.Base.{
  ℕ, zero, suc, ◌+◌, ◌*◌, ◌/◌, ◌%◌, ◌^◌, ◌≤◌, ◌<◌, ◌≡◌, refl, arith, ◌⊎◌, inl, inr, ◌&&◌, ◌==◌, leb,
  Bool-cases,
}
use cki_artifact.Monitor.State.{rank, Machine, Monitor, DirectMap}
use cki_artifact.Monitor.Walk.{get_pge_vaddr}
use cki_artifact.Monitor.Frames.{target, IsLarge}
use cki_artifact.Monitor.Hardware.{index, walk, get_pge_vaddr-walk}
use cki_artifact.Monitor.Layers.{Below, entry, IsLayered}
use cki_artifact.Monitor.Reach.{IsSound, Reach, Reach-IsSound}

-- An entry that maps no large page points one level down.
Below-small :
    (s : Monitor) (d r e : ℕ)
    → ¬ (IsLarge e × (d ≤ 1))
    → Below s r e
    → r ≡ suc d + 1
    → (target e < 2 ^ 23) × (rank (s.types (target e)) ≡ d + 1)
Below-small s d r e small (inl (large, low)) h = absurd (small (large, omega arith))
Below-small s d r e small (inr (lt, next)) h = (lt, omega arith)

module _ (m : Machine) where
  -- The address lies in a page that is declared as a page table.
  abbrev pub InTable : Monitor → (vaddr : ℕ) → Type 0
  InTable s vaddr =
      (f i : ℕ) × (f < 2 ^ 23)
      × (i < 512)
      × (1 ≤ rank (s.types f))
      × (vaddr ≡ m.phys_to_virt (f * 4096 + 8 * i))

  index-lt : (d va : ℕ) → index d va < 512
  index-lt zero va = omega arith
  index-lt (suc zero) va = omega arith
  index-lt (suc (suc zero)) va = omega arith
  index-lt (suc (suc (suc d))) va = omega arith

  -- From a page that is declared with its level, the processor's walk ends in declared pages only.
  walk-InTable :
      (d f va : ℕ) (s : Monitor)
      → IsLayered m s
      → f < 2 ^ 23
      → rank (s.types f) ≡ d + 1
      → (walk m s d f va ≡ 0) ⊎ InTable s (walk m s d f va)
  unfolding walk
  walk-InTable zero f va s layered lt r = inr (f, index 0 va, lt, index-lt 0 va, omega arith, refl)
  walk-InTable (suc d) f va s layered lt r =
      elim (Bool-cases (entry m s f (index (suc d) va) % 2 == 0)) [
        | inl absent ↦ rw absent (inl refl)
        | inr present ↦
            elim (Bool-cases (leb d 1 && (entry m s f (index (suc d) va) / 128 % 2 == 1))) [
              | inl large ↦
                  rw (present, large)
                    (inr (f, index (suc d) va, lt, index-lt (suc d) va, omega arith, refl))
              | inr small ↦
                  rw (present, small)
                    (let next =
                        Below-small s d _ (entry m s f (index (suc d) va)) (ground arith)
                          (layered f (index (suc d) va) lt (index-lt (suc d) va) (omega arith)
                            (ground arith))
                          r in
                      walk-InTable d (target (entry m s f (index (suc d) va))) va s layered next.0
                        next.1)
            ]
      ]

  -- Take a sound state: initialised, with the levels in order and CR3 at a page declared as a top
  -- table. After any sequence of changes of entries, loads, declarations of pages whose entries
  -- keep to the order, and removals of pages that neither CR3 nor another table points to, the
  -- monitor's walk finds for each address nothing or an entry of a page that is declared as a page
  -- table. Conditions: the kernel's direct map is one, and CR3 names another frame than 0 at the
  -- end.
  pub get_pge_vaddr-InTable :
      (s s' : Monitor) (va : ℕ)
      → DirectMap m
      → IsSound m s
      → Reach m s s'
      → 0 < target s'.cr3
      → (get_pge_vaddr m s' va ≡ 0) ⊎ InTable s' (get_pge_vaddr m s' va)
  get_pge_vaddr-InTable s s' va direct sound r there =
      let sound' = Reach-IsSound m direct s s' sound r in
      rw (get_pge_vaddr-walk m s' va there)
        (walk-InTable 3 (target s'.cr3) va s' sound'.layered sound'.root.0 sound'.root.1)
