-- ===== src/Guest/Mapping.antt =====
-- What the container's kernel asks of the monitor when it sets an entry of a last-level page table.
use cki_artifact.Base.{
  ℕ, ◌*◌, ◌^◌, ◌<◌, ◌≤◌, ◌≡◌, ◌≢◌, arith, true, false, not, ◌&&◌, ◌==◌, ltb, ne→==,
}
use cki_artifact.Monitor.State.{Machine, Monitor, done}
use cki_artifact.Monitor.Pages.{update_mapping}
use cki_artifact.Monitor.Frames.{target}
use cki_artifact.Monitor.Updates.{absent, stored, Updated, changed, stopped, update_mapping-Updated}
use cki_artifact.Guest.Hooks.{Linux, pkm_set_pte}

-- What Linux documents of its paging code: the frame of an entry, if it is not one that only marks
-- a page without access, and the end of the addresses of ISA devices, one megabyte.
pub record PagingLaws (l : Linux) (pte : ℕ) : Type 0 where
  pub frame_of : l.pte_pfn pte ≡ target pte
  pub isa_end : l.isa_end_address ≡ 2 ^ 20

clears :
    (m : Machine) (s : Monitor) (page_entry : ℕ)
    → s.mmu_is_initialized ≡ true
    → update_mapping m page_entry 0 s ≡ done tt (stored s page_entry 0)
clears m s page_entry on = elim (update_mapping-Updated m s page_entry 0 on) [
  | changed p e ↦ e
  | stopped n e ↦ absurd (n (absent λ present. omega (arith, present)))
]

-- Once the monitor is initialised, an entry other than 0 for an address below 4 GB is not set:
-- pkm_set_pte stores 0 in its place and returns. An entry for an address from there on goes to the
-- monitor's check as it is. Conditions: pte_pfn gives the frame of the entry, and ISA_END_ADDRESS
-- is one megabyte.
pub pkm_set_pte-Updated :
    (m : Machine) (l : Linux) (s : Monitor) (ptep pte : ℕ)
    → PagingLaws l pte
    → s.mmu_is_initialized ≡ true
    → (pte ≢ 0
        → target pte * 4096 < 2 ^ 32
        → pkm_set_pte m l ptep pte s ≡ done tt (stored s ptep 0))
      × (2 ^ 32 ≤ target pte * 4096 → Updated m s ptep pte (pkm_set_pte m l ptep pte s))
unfolding pkm_set_pte
pkm_set_pte-Updated m l s ptep pte laws on = (
  λ nonzero low.
      let cleared : (not (pte == 0) && ltb (l.pte_pfn pte) l.isa_end_address) ≡ true =
        rw (ne→== pte 0 nonzero, laws.frame_of, laws.isa_end) (ground arith) in
      rw cleared (clears m s ptep on),
  λ high.
      let kept : (not (pte == 0) && ltb (l.pte_pfn pte) l.isa_end_address) ≡ false =
        rw (laws.frame_of, laws.isa_end) (ground arith) in
      rw kept (update_mapping-Updated m s ptep pte on),
)
