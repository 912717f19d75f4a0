-- ===== src/Monitor/Walk.antt =====
-- The walk over the current page table: `get_pgeVaddr` and the functions of its four levels.
use cki_artifact.Base.{ℕ, ◌==◌, bit_and, bit_or, if◌then◌else◌, ◌>>>◌}
use cki_artifact.Monitor.State.{Machine, Monitor, pg_v, pg_ps, has}

-- `vmask`, and the frame's bits as the walk's functions write them.
abbrev pub vmask : ℕ
vmask = 0x0000000000000ff8

abbrev pub base_mask : ℕ
base_mask = 0x000ffffffffff000

module _ (m : Machine) where
  unfoldable pub get_pml4e_vaddr : (cr3 vaddr : ℕ) → ℕ
  get_pml4e_vaddr cr3 vaddr = m.phys_to_virt (bit_or cr3 (bit_and (vaddr >>> 36) vmask))

  -- `get_pdpteVaddr`, `get_pdeVaddr` and `get_pteVaddr`: an entry of the table that another entry,
  -- here read already, points to.
  unfoldable pub get_pdpte_vaddr : (pml4e vaddr : ℕ) → ℕ
  get_pdpte_vaddr pml4e vaddr =
      m.phys_to_virt (bit_or (bit_and pml4e base_mask) (bit_and (vaddr >>> 27) vmask))

  unfoldable pub get_pde_vaddr : (pdpte vaddr : ℕ) → ℕ
  get_pde_vaddr pdpte vaddr =
      m.phys_to_virt (bit_or (bit_and pdpte base_mask) (bit_and (vaddr >>> 18) vmask))

  unfoldable pub get_pte_vaddr : (pde vaddr : ℕ) → ℕ
  get_pte_vaddr pde vaddr =
      m.phys_to_virt (bit_or (bit_and pde base_mask) (bit_and (vaddr >>> 9) vmask))

  -- `get_pagetable`
  unfoldable pub get_pagetable : Monitor → ℕ
  get_pagetable s = bit_and s.cr3 base_mask

  -- `get_pgeVaddr`: the address of the entry that maps a virtual address, or NULL.
  unfoldable pub get_pge_vaddr : Monitor → (vaddr : ℕ) → ℕ
  unfolding get_pml4e_vaddr get_pdpte_vaddr get_pde_vaddr get_pte_vaddr get_pagetable
  get_pge_vaddr s vaddr =
      let cr3 = get_pagetable s in
      let pml4e = s.mem (get_pml4e_vaddr cr3 vaddr) in
      let pdpte_vaddr = get_pdpte_vaddr pml4e vaddr in
      let pdpte = s.mem pdpte_vaddr in
      let pde_vaddr = get_pde_vaddr pdpte vaddr in
      let pde = s.mem pde_vaddr in
      if bit_and cr3 0xfffffffffffff000 == 0
      then 0
      else if has pml4e pg_v
      then if has pdpte pg_v
        then if has pdpte pg_ps
          then pdpte_vaddr
          else if has pde pg_v
          then if has pde pg_ps then pde_vaddr else get_pte_vaddr pde vaddr
          else 0
        else 0
      else 0
