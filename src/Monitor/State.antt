-- ===== src/Monitor/State.antt =====
-- The monitor's state, the outcomes of its functions, and the direct map.
use cki_artifact.Base.{
  ℕ, ◌+◌, ◌/◌, ◌≡◌, Bool, true, false, not, bit_and, leb, ◌==◌, if◌then◌else◌, Option, none, some,
  List, ◌∷◌,
}

-- `enum page_type_t`
pub data PageType : Type 0 where
  unused l1 l2 l3 l4 : PageType

-- The number of an enumerator.
abbrev pub rank : PageType → ℕ
rank unused = 0
rank l1 = 1
rank l2 = 2
rank l3 = 3
rank l4 = 4

-- The instructions for the processor's address translation: `invlpg` and a write of CR3.
pub data Event : Type 0 where
  invlpg load_cr3 : ℕ → Event

-- The memory by words at virtual addresses (entries are aligned, so no two overlap), `page_desc` by
-- frame, and the other globals.
pub record Monitor : Type 0 where
  pub mem : ℕ → ℕ
  pub types : ℕ → PageType
  pub cr3 : ℕ
  pub mmu_is_initialized : Bool
  pub mmu_lock : Bool
  pub log : List Event

-- `bug` is a failed `BUG_ON`, `fault` an access through NULL, and `spin` a lock that is never free.
pub data Run (A : Type 0) : Type 0 where
  done : A → Monitor → Run A
  bug : Monitor → Run A
  fault : Monitor → Run A
  spin : Monitor → Run A

abbrev pub Cmd : Type 0 → Type 0
Cmd A = Monitor → Run A

abbrev pub pure : {A : Type 0} → A → Cmd A
pure = done

module _ {A B : Type 0} where
  abbrev pub and_then : Run A → (A → Cmd B) → Run B
  and_then (done a s) f = f a s
  and_then (bug s) f = bug s
  and_then (fault s) f = fault s
  and_then (spin s) f = spin s

  infixl 5 ◌>>=◌ ◌>>◌
  abbrev pub ◌>>=◌ : Cmd A → (A → Cmd B) → Cmd B
  m >>= f = λ s. and_then (m s) f

  abbrev pub ◌>>◌ : Cmd A → Cmd B → Cmd B
  m >> n = m >>= λ _. n

-- `BUG_ON`
abbrev pub bug_on : Bool → Cmd (Unit {0})
bug_on b = if b then bug else pure tt

-- `phys_to_virt` and `virt_to_phys` of the kernel.
pub record Machine : Type 0 where
  pub phys_to_virt : ℕ → ℕ
  pub virt_to_phys : ℕ → ℕ

-- What the kernel documents of its direct map: physical memory at an offset, and the way back.
pub record DirectMap (m : Machine) : Type 0 where
  pub contiguous : (p o : ℕ) → m.phys_to_virt (p + o) ≡ m.phys_to_virt p + o
  pub back : (p : ℕ) → m.virt_to_phys (m.phys_to_virt p) ≡ p

-- `PG_V`, `PG_PS`, `PG_FRAME` and `NPTEPG`.
abbrev pub pg_v : ℕ
pg_v = 0x001

abbrev pub pg_ps : ℕ
pg_ps = 0x080

abbrev pub pg_frame : ℕ
pg_frame = 0x000ffffffffff000

abbrev pub nptepg : ℕ
nptepg = 512

-- `pageSize`, `memSize` and `numPageDescEntries`.
abbrev pub page_size : ℕ
page_size = 4096

abbrev pub mem_size : ℕ
mem_size = 0x0000000800000000

abbrev pub num_page_desc_entries : ℕ
num_page_desc_entries = mem_size / page_size

-- A flag of an entry.
abbrev pub has : (entry flag : ℕ) → Bool
has entry flag = not (bit_and entry flag == 0)

-- The index of a frame in `page_desc`, as an entry or an address names it.
unfoldable pub frame_index : ℕ → ℕ
frame_index mapping = bit_and mapping pg_frame / page_size

-- `getPageDescPtr`: an index, or NULL past the end of the array.
unfoldable pub get_page_desc_ptr : ℕ → Option ℕ
unfolding frame_index
get_page_desc_ptr mapping =
    let i = frame_index mapping in if leb num_page_desc_entries i then none else some i

-- `setMappingReadOnly` and `setMappingReadWrite`, which the source calls an emulation.
unfoldable pub set_mapping_read_only : ℕ → ℕ
set_mapping_read_only mapping = mapping

unfoldable pub set_mapping_read_write : ℕ → ℕ
set_mapping_read_write mapping = mapping

abbrev pub update {ℓ} : {A : Type ℓ} → (ℕ → A) → ℕ → A → ℕ → A
update f i v = λ j. if i == j then v else f j

-- `page_entry_store`
unfoldable pub page_entry_store : (page_entry val : ℕ) → Cmd (Unit {0})
page_entry_store page_entry val s = done tt (record s { mem = update s.mem page_entry val })

abbrev pub set_type : (frame : ℕ) → PageType → Cmd (Unit {0})
set_type frame t s = done tt (record s { types = update s.types frame t })

-- `sva_mm_flush_tlb` and `_load_cr3`
unfoldable pub sva_mm_flush_tlb : ℕ → Cmd (Unit {0})
sva_mm_flush_tlb address s = done tt (record s { log = invlpg address ∷ s.log })

unfoldable pub load_cr3_register : ℕ → Cmd (Unit {0})
load_cr3_register data_ s = done tt (record s { cr3 = data_; log = load_cr3 data_ ∷ s.log })

-- `MMULock_Acquire` and `MMULock_Release`
unfoldable pub mmu_lock_acquire : Cmd (Unit {0})
mmu_lock_acquire s = if s.mmu_lock then spin s else done tt (record s { mmu_lock = true })

unfoldable pub mmu_lock_release : Cmd (Unit {0})
mmu_lock_release s = done tt (record s { mmu_lock = false })
