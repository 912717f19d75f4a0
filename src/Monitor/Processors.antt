-- ===== src/Monitor/Processors.antt =====
-- Several processors at the monitor. `update_mapping` takes no lock: between its check,
-- pt_update_is_valid, and its store, page_entry_store, the others go on.
pub mod Pending
pub mod Races
use cki_artifact.Base.{ℕ, ◌≡◌, ◌≢◌, true, Option, none, some}
use cki_artifact.Monitor.State.{PageType, Machine, Monitor, done, update, page_entry_store}
use cki_artifact.Monitor.Pages.{
  pt_update_is_valid, sva_mm_load_pgtable, sva_declare_page, sva_remove_page,
}
use cki_artifact.Monitor.Frames.{target}
use cki_artifact.Monitor.Order.{EntriesBelow, IsUnreferenced}

-- The arguments of an update_mapping.
pub record Change : Type 0 where
  pub page_entry : ℕ
  pub val : ℕ

-- The monitor's state, and for each processor its CR3, which stands for `monitor.cr3` while the
-- processor runs, and the change that it has checked and not yet stored.
pub record Processors : Type 0 where
  pub monitor : Monitor
  pub cr3 : ℕ → ℕ
  pub pending : ℕ → Option Change

-- The state that a processor with this CR3 runs on.
abbrev pub with_cr3 : Monitor → ℕ → Monitor
with_cr3 s cr3 = record s { cr3 = cr3 }

module _ (m : Machine) where
  -- A checked change neither lies in the page nor points to it.
  abbrev pub IsAside : (page : ℕ) → Option Change → Type 0
  IsAside page none = Unit
  IsAside page (some c) = (target (m.virt_to_phys c.page_entry) ≢ page) × (target c.val ≢ page)

  -- One step of one processor. The operations under the lock are one step each, since only one
  -- processor has it and each changes the state once. What the container's kernel promises of a
  -- declaration and a removal is as in Monitor/Reach, and a page that it removes is no processor's
  -- top table and aside of what any has checked and not yet stored.
  pub data Turn : Processors → Processors → Type 0 where
    checks :
        (cpu : ℕ) (c : Change) (s s' : Monitor) (cr3 : ℕ → ℕ) (pending : ℕ → Option Change)
        → pending cpu ≡ none
        → pt_update_is_valid m c.page_entry c.val (with_cr3 s (cr3 cpu)) ≡ done tt s'
        → Turn
            (record { monitor = s; cr3 = cr3; pending = pending })
            (record {
              monitor = s';
              cr3 = update cr3 cpu s'.cr3;
              pending = update pending cpu (some c);
            })
    stores :
        (cpu : ℕ) (c : Change) (s s' : Monitor) (cr3 : ℕ → ℕ) (pending : ℕ → Option Change)
        → pending cpu ≡ some c
        → page_entry_store c.page_entry c.val (with_cr3 s (cr3 cpu)) ≡ done tt s'
        → Turn
            (record { monitor = s; cr3 = cr3; pending = pending })
            (record {
              monitor = s';
              cr3 = update cr3 cpu s'.cr3;
              pending = update pending cpu none;
            })
    loads :
        (cpu : ℕ) (table : ℕ) (s s' : Monitor) (cr3 : ℕ → ℕ) (pending : ℕ → Option Change)
        → sva_mm_load_pgtable table (with_cr3 s (cr3 cpu)) ≡ done tt s'
        → Turn
            (record { monitor = s; cr3 = cr3; pending = pending })
            (record { monitor = s'; cr3 = update cr3 cpu s'.cr3; pending = pending })
    declares :
        (cpu : ℕ) (paddr : ℕ) (t : PageType) (s s' : Monitor) (cr3 : ℕ → ℕ)
        (pending : ℕ → Option Change)
        → EntriesBelow m s (target paddr) t
        → sva_declare_page m paddr t (with_cr3 s (cr3 cpu)) ≡ done tt s'
        → Turn
            (record { monitor = s; cr3 = cr3; pending = pending })
            (record { monitor = s'; cr3 = update cr3 cpu s'.cr3; pending = pending })
    removes :
        (cpu : ℕ) (paddr : ℕ) (s s' : Monitor) (cr3 : ℕ → ℕ) (pending : ℕ → Option Change)
        → IsUnreferenced m s (target paddr)
        → ((j : ℕ) → target paddr ≢ target (cr3 j))
        → ((j : ℕ) → IsAside (target paddr) (pending j))
        → sva_remove_page m paddr (with_cr3 s (cr3 cpu)) ≡ done tt s'
        → Turn
            (record { monitor = s; cr3 = cr3; pending = pending })
            (record { monitor = s'; cr3 = update cr3 cpu s'.cr3; pending = pending })

  pub data Turns (p : Processors) : Processors → Type 0 where
    start : Turns p p
    turn : {q r : Processors} → Turns p q → Turn q r → Turns p r
