-- ===== src/Scenarios/Pages.antt =====
-- The theorems about the monitor of the page tables at a small table.
use cki_artifact.Base.{
  ℕ, ◌+◌, ◌-◌, ◌*◌, ◌≡◌, ◌↔◌, ◌⊎◌, refl, arith, true, false, if◌then◌else◌, ◌==◌, [], ◌∷◌,
}
use cki_artifact.Monitor.State.{
  PageType, unused, l1, l2, l3, l4, Machine, DirectMap, Monitor, done, update, invlpg,
}
use cki_artifact.Monitor.Walk.{get_pge_vaddr}
use cki_artifact.Monitor.Pages.{
  sva_mm_load_pgtable, sva_declare_page, sva_remove_page, update_mapping,
}
use cki_artifact.Monitor.Hardware.{walk, get_pge_vaddr-walk}
use cki_artifact.Monitor.Updates.{Updated, update_mapping-Updated}
use cki_artifact.Monitor.Layers.{IsLayered, update_mapping-IsLayered}
use cki_artifact.Monitor.Declared.{Declared, sva_declare_page-Declared}
use cki_artifact.Monitor.Order.{
  EntriesBelow, IsUnreferenced, sva_declare_page-IsLayered, sva_remove_page-IsLayered,
}
use cki_artifact.Monitor.Load.{Loaded, sva_mm_load_pgtable-Loaded}
use cki_artifact.Monitor.Reach.{IsSound, start, step, updates}
use cki_artifact.Monitor.Loop.{IsTree}
use cki_artifact.Monitor.Tables.{InTable, get_pge_vaddr-InTable}

abbrev pub machine : Machine
machine = record {
  phys_to_virt = λ p. 0xffff888000000000 + p;
  virt_to_phys = λ a. a - 0xffff888000000000;
}

-- Tables in the frames 16 to 19 map the first two megabytes of the direct map.
abbrev pub table_word : ℕ → ℕ
table_word a =
    if a == 0xffff888000010000 + 8 * 273
    then 0x11003
    else if a == 0xffff888000011000
    then 0x12003
    else if a == 0xffff888000012000
    then 0x13003
    else 0

abbrev pub table_type : ℕ → PageType
table_type f =
    if f == 16
    then l4
    else if f == 17
    then l3
    else if f == 18
    then l2
    else if f == 19
    then l1
    else if f == 20
    then l1
    else unused

abbrev pub tables : Monitor
tables = record {
  mem = table_word;
  types = table_type;
  cr3 = 0x10000;
  mmu_is_initialized = true;
  mmu_lock = false;
  log = [];
}

pub machine-DirectMap : DirectMap machine
machine-DirectMap = record { contiguous = λ p o. omega arith; back = λ p. omega arith }

tables-IsLayered : IsLayered machine tables
tables-IsLayered f i hf hi two present = ground arith

pub tables-IsSound : IsSound machine tables
tables-IsSound = record { on = refl; layered = tables-IsLayered; root = (omega arith, refl) }

get_pge_vaddr-walk_example :
    get_pge_vaddr machine tables 0xffff888000015678 ≡ walk machine tables 3 16 0xffff888000015678
get_pge_vaddr-walk_example = get_pge_vaddr-walk machine tables 0xffff888000015678 (omega arith)

-- An entry of the last table, set to a page that is no page table.
update_mapping-Updated_example :
    Updated machine tables 0xffff8880000130a8 0x50003
      (update_mapping machine 0xffff8880000130a8 0x50003 tables)
update_mapping-Updated_example =
    update_mapping-Updated machine tables 0xffff8880000130a8 0x50003 refl

abbrev mapped : Monitor
mapped = record tables { mem = update table_word 0xffff8880000130a8 0x50003 }

maps : update_mapping machine 0xffff8880000130a8 0x50003 tables ≡ done tt mapped
unfolding update_mapping
maps = refl

update_mapping-IsLayered_example : IsLayered machine mapped
update_mapping-IsLayered_example =
    update_mapping-IsLayered machine machine-DirectMap tables mapped 0xffff8880000130a8 0x50003 refl
      tables-IsLayered maps

sva_declare_page-Declared_example :
    Declared machine 0x15000 l2 tables (sva_declare_page machine 0x15000 l2 tables)
sva_declare_page-Declared_example = sva_declare_page-Declared machine 0x15000 l2 tables

abbrev pub with_type : PageType → (frame : ℕ) → Monitor
with_type t frame = record tables {
  mem = update table_word (0xffff888000013000 + 8 * frame) 0;
  types = update table_type frame t;
  log = invlpg (0xffff888000000000 + frame * 4096) ∷ [];
}

declares : sva_declare_page machine 0x15000 l2 tables ≡ done tt (with_type l2 21)
unfolding sva_declare_page
declares = refl

removes : sva_remove_page machine 0x14000 tables ≡ done tt (with_type unused 20)
unfolding sva_remove_page
removes = refl

sva_declare_page-IsLayered_example :
    IsLayered machine (with_type l2 21) ↔ EntriesBelow machine tables 21 l2
sva_declare_page-IsLayered_example =
    sva_declare_page-IsLayered machine 0x15000 l2 tables (with_type l2 21) tables-IsLayered declares

sva_remove_page-IsLayered_example :
    IsLayered machine (with_type unused 20) ↔ IsUnreferenced machine tables 20
sva_remove_page-IsLayered_example =
    sva_remove_page-IsLayered machine 0x14000 tables (with_type unused 20) tables-IsLayered removes

sva_mm_load_pgtable-Loaded_example :
    Loaded 0x8000000000010005 tables (sva_mm_load_pgtable 0x8000000000010005 tables)
sva_mm_load_pgtable-Loaded_example = sva_mm_load_pgtable-Loaded 0x8000000000010005 tables

get_pge_vaddr-InTable_example :
    (get_pge_vaddr machine mapped 0xffff888000015678 ≡ 0)
    ⊎ InTable machine mapped (get_pge_vaddr machine mapped 0xffff888000015678)
get_pge_vaddr-InTable_example =
    get_pge_vaddr-InTable machine tables mapped 0xffff888000015678 machine-DirectMap tables-IsSound
      (step start (updates 0xffff8880000130a8 0x50003 maps)) (omega arith)

-- The same words before the monitor is initialised.
abbrev pub boot_tables : Monitor
boot_tables = record tables { types = λ _. unused; mmu_is_initialized = false }

abbrev pub level_of : ℕ → ℕ
level_of f =
    if f == 16 then 4 else if f == 17 then 3 else if f == 18 then 2 else if f == 19 then 1 else 0

pub boot_tables-IsTree : IsTree machine boot_tables level_of
boot_tables-IsTree f i hf hi two present = ground arith
