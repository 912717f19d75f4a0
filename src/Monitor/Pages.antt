-- ===== src/Monitor/Pages.antt =====
-- The monitor's operations: declaring and removing page-table pages, loading a table, and changing
-- an entry.
use cki_artifact.Base.{
  ℕ, zero, suc, ◌+◌, ◌*◌, Bool, true, not, ◌&&◌, bit_and, ltb, leb, ◌==◌, if◌then◌else◌, u64, not64,
  ◌<<<◌, none, some,
}
use cki_artifact.Monitor.State.{
  PageType, unused, l1, l2, l3, l4, rank, Machine, Cmd, pure, done, bug, fault, ◌>>=◌, ◌>>◌, bug_on,
  pg_v, pg_ps, pg_frame, nptepg, mem_size, has, get_page_desc_ptr, set_mapping_read_only,
  set_mapping_read_write, page_entry_store, set_type, sva_mm_flush_tlb, load_cr3_register,
  mmu_lock_acquire, mmu_lock_release,
}
use cki_artifact.Monitor.Walk.{get_pagetable, get_pge_vaddr}

abbrev pub same_type : PageType → PageType → Bool
same_type t u = rank t == rank u

-- `assert_page_in_range`: the end of the page is computed on 64 bits.
unfoldable pub assert_page_in_range : (paddr size : ℕ) → Cmd (Unit {0})
assert_page_in_range paddr size = do
  bug_on (ltb (u64 (paddr + size)) paddr)
  bug_on (leb mem_size (u64 (paddr + size)))

-- A read of the type behind `getPageDescPtr`.
unfoldable pub type_of : (mapping : ℕ) → Cmd PageType
unfolding get_page_desc_ptr
type_of mapping s = elim (get_page_desc_ptr mapping) [
  | none ↦ fault s
  | some i ↦ done (s.types i) s
]

-- `pageLevel` with `d` levels below it.
unfoldable pub level : ℕ → PageType
level zero = l1
level (suc zero) = l2
level (suc (suc zero)) = l3
level (suc (suc (suc d))) = l4

-- The loop over the entries of a page, from index `i` on.
unfoldable pub for_entries : (n i : ℕ) → (ℕ → Cmd (Unit {0})) → Cmd (Unit {0})
for_entries zero i body = pure tt
for_entries (suc n) i body = body i >> for_entries n (i + 1) body

-- A page-table entry that maps a large page is no table: the two lowest levels return there.
abbrev pub is_large : (d mapping : ℕ) → Bool
is_large d mapping = leb d 1 && has mapping pg_ps

-- The `switch` of `pt_update_is_valid`, by the type of the page that holds the entry.
unfoldable pub check_level : PageType → (new_val : ℕ) → Cmd (Unit {0})
unfolding assert_page_in_range type_of
check_level unused new_val = bug
check_level l1 new_val = do
  assert_page_in_range (bit_and new_val pg_frame) (1 <<< 12)
  t ← type_of new_val
  bug_on (leb 1 (rank t) && leb (rank t) 4)
check_level l2 new_val =
    if has new_val pg_ps
    then assert_page_in_range (bit_and new_val pg_frame) (1 <<< 21)
    else (type_of new_val >>= λ t. bug_on (not (same_type t l1)))
check_level l3 new_val =
    if has new_val pg_ps
    then assert_page_in_range (bit_and new_val pg_frame) (1 <<< 30)
    else (type_of new_val >>= λ t. bug_on (not (same_type t l2)))
check_level l4 new_val = do
  bug_on (has new_val pg_ps)
  t ← type_of new_val
  bug_on (not (same_type t l3))

-- The `BUG_ON` of `sva_mm_load_pgtable`, and all up to the load: once the monitor is initialised, the
-- page is a top table.
unfoldable pub check_top : (cr3 : ℕ) → Cmd (Unit {0})
unfolding type_of
check_top cr3 = type_of (bit_and cr3 (not64 (1 <<< 63))) >>= λ t. bug_on (not (same_type t l4))

unfoldable pub check_root : (cr3 : ℕ) → Cmd (Unit {0})
unfolding check_top
check_root cr3 s = if s.mmu_is_initialized then check_top cr3 s else done tt s

-- `sva_mm_load_pgtable`
unfoldable pub sva_mm_load_pgtable : (cr3 : ℕ) → Cmd (Unit {0})
unfolding mmu_lock_acquire check_root load_cr3_register mmu_lock_release
sva_mm_load_pgtable cr3 = do
  mmu_lock_acquire
  check_root cr3
  load_cr3_register cr3
  mmu_lock_release

-- `__pkm_write_cr3`
unfoldable pub pkm_write_cr3 : ℕ → Cmd (Unit {0})
unfolding sva_mm_load_pgtable
pkm_write_cr3 val = sva_mm_load_pgtable val

-- `sva_declare_page` up to the page's initialisation.
unfoldable pub declare_frame : (paddr : ℕ) → PageType → Cmd (Unit {0})
unfolding get_page_desc_ptr
declare_frame paddr t s = elim (get_page_desc_ptr paddr) [
  | none ↦ bug s
  | some i ↦
      (bug_on (not (same_type (s.types i) unused) && not (same_type (s.types i) t)) >> set_type i t)
        s
]

module _ (m : Machine) where
  -- The loop's body: a present entry of the page is walked.
  unfoldable pub walk_entry : (mapping : ℕ) → (ℕ → Cmd (Unit {0})) → (j : ℕ) → Cmd (Unit {0})
  walk_entry mapping walk j s =
      let entry = s.mem (m.phys_to_virt (bit_and mapping pg_frame) + 8 * j) in
      if has entry pg_v then walk entry s else done tt s

  -- `declare_ptp_and_walk_pt_entries` on the entry `mapping`, with `d` levels below.
  unfoldable pub declare_ptp_and_walk_pt_entries : (d mapping : ℕ) → Cmd (Unit {0})
  unfolding type_of level for_entries get_page_desc_ptr walk_entry
  declare_ptp_and_walk_pt_entries zero mapping = type_of mapping >>= λ t.
      if is_large zero mapping then pure tt else λ s. elim (get_page_desc_ptr mapping) [
        | none ↦ fault s
        | some i ↦ set_type i l1 s
      ]
  declare_ptp_and_walk_pt_entries (suc d) mapping = type_of mapping >>= λ t.
      if is_large (suc d) mapping then pure tt else λ s. elim (get_page_desc_ptr mapping) [
        | none ↦ fault s
        | some i ↦
            (set_type i (level (suc d))
                >> (if not (same_type t unused)
                    then pure tt
                    else for_entries nptepg 0
                        (walk_entry mapping (declare_ptp_and_walk_pt_entries d))))
              s
      ]

  -- `sva_mmu_init`
  unfoldable pub sva_mmu_init : Cmd (Unit {0})
  unfolding declare_ptp_and_walk_pt_entries get_pagetable
  sva_mmu_init s =
      (declare_ptp_and_walk_pt_entries 3 (bit_and (get_pagetable m s) pg_frame) >> λ s'.
      done tt (record s' { mmu_is_initialized = true }))
        s

  -- `initDeclaredPage`, whose `memcpy` copies the page to itself.
  unfoldable pub init_declared_page : (frame_addr : ℕ) → Cmd (Unit {0})
  unfolding get_pge_vaddr page_entry_store set_mapping_read_only sva_mm_flush_tlb
  init_declared_page frame_addr s =
      let vaddr = m.phys_to_virt frame_addr in
      let page_entry = get_pge_vaddr m s vaddr in
      if page_entry == 0
      then done tt s
      else (page_entry_store page_entry (set_mapping_read_only (s.mem page_entry))
            >> sva_mm_flush_tlb vaddr)
          s

  -- `sva_declare_page`
  unfoldable pub sva_declare_page : (paddr : ℕ) → PageType → Cmd (Unit {0})
  unfolding mmu_lock_acquire declare_frame init_declared_page mmu_lock_release
  sva_declare_page paddr t = do
    mmu_lock_acquire
    declare_frame paddr t
    init_declared_page paddr
    mmu_lock_release

  -- `sva_remove_page` under the lock: a page without a descriptor or without a mapping is an access
  -- through NULL.
  unfoldable pub remove_frame : (paddr : ℕ) → Cmd (Unit {0})
  unfolding get_page_desc_ptr get_pge_vaddr page_entry_store set_mapping_read_write sva_mm_flush_tlb
  remove_frame paddr s =
      let pte = get_pge_vaddr m s (m.phys_to_virt paddr) in
      elim (get_page_desc_ptr paddr) [
        | none ↦ fault s
        | some i ↦
            (set_type i unused >> λ s'.
            if pte == 0
            then fault s'
            else (page_entry_store pte (set_mapping_read_write (s'.mem pte))
                  >> sva_mm_flush_tlb (m.phys_to_virt paddr))
                s')
              s
      ]

  unfoldable pub sva_remove_page : (paddr : ℕ) → Cmd (Unit {0})
  unfolding mmu_lock_acquire remove_frame mmu_lock_release
  sva_remove_page paddr = do mmu_lock_acquire; remove_frame paddr; mmu_lock_release

  -- `pt_update_is_valid`, which returns 1 or does not return.
  unfoldable pub pt_update_is_valid : (page_entry new_val : ℕ) → Cmd (Unit {0})
  unfolding get_page_desc_ptr check_level
  pt_update_is_valid page_entry new_val s =
      if not (has new_val pg_v)
      then done tt s
      else elim (get_page_desc_ptr (m.virt_to_phys page_entry)) [
        | none ↦ done tt s
        | some i ↦ check_level (s.types i) new_val s
      ]

  -- `update_mapping`, which `__pkm_set_pte` and its siblings call.
  unfoldable pub update_mapping : (page_entry val : ℕ) → Cmd (Unit {0})
  unfolding pt_update_is_valid page_entry_store
  update_mapping page_entry val s =
      ((if s.mmu_is_initialized then pt_update_is_valid page_entry val else pure tt)
          >> page_entry_store page_entry val)
        s

  -- `__pkm_alloc_pte` and its siblings, and `__pkm_release_pte` and its
  -- siblings, which are all one function.
  unfoldable pub pkm_alloc : PageType → (pfn : ℕ) → Cmd (Unit {0})
  unfolding sva_declare_page
  pkm_alloc t pfn = sva_declare_page (pfn <<< 12) t

  unfoldable pub pkm_release : (pfn : ℕ) → Cmd (Unit {0})
  unfolding sva_remove_page
  pkm_release pfn = sva_remove_page (pfn <<< 12)
