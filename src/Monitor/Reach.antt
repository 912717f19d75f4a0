-- ===== src/Monitor/Reach.antt =====
-- The states that sequences of the monitor's operations reach.
use cki_artifact.Base.{ℕ, ◌≡◌, ◌≢◌, ap, arith, ◌⊎◌, inl, inr, true, ◌==◌, Bool-cases, ne→==}
use mathlib.Core.Path.{subst}
use cki_artifact.Monitor.State.{PageType, unused, rank, Machine, Monitor, DirectMap, done, update}
use cki_artifact.Monitor.Pages.{
  sva_mm_load_pgtable, sva_declare_page, sva_remove_page, update_mapping,
}
use cki_artifact.Monitor.Frames.{target}
use cki_artifact.Monitor.Updates.{Updated, changed, stopped, update_mapping-Updated}
use cki_artifact.Monitor.Layers.{IsLayered, update_mapping-IsLayered}
use cki_artifact.Monitor.Declared.{
  retyped, Declared, declared, refused, locked, sva_declare_page-Declared, Removed, removed,
  faulted, sva_remove_page-Removed,
}
use cki_artifact.Monitor.Order.{
  EntriesBelow, IsUnreferenced, sva_declare_page-IsLayered, sva_remove_page-IsLayered,
}
use cki_artifact.Monitor.Load.{
  IsTop, with_table, Loaded, loaded, unloaded, waits, sva_mm_load_pgtable-Loaded,
}

-- A top table keeps its level when a page is declared.
pub still_top :
    (s : Monitor) (page f : ℕ) (t : PageType)
    → (rank (s.types page) ≡ 0) ⊎ (rank (s.types page) ≡ rank t)
    → rank (s.types f) ≡ 4
    → rank (update s.types page t f) ≡ 4
still_top s page f t free top = elim (Bool-cases (page == f)) [
  | inr ne ↦ rw (ne, top)
  | inl e ↦ rw e (at_page (ground arith) free)
]
  where
    at_page : page ≡ f → (rank (s.types page) ≡ 0) ⊎ (rank (s.types page) ≡ rank t) → rank t ≡ 4
    at_page q (inl z) = absurd (omega (arith, top, z, ap (λ x. rank (s.types x)) q))
    at_page q (inr z) = omega (arith, top, z, ap (λ x. rank (s.types x)) q)

module _ (m : Machine) where
  -- An operation that takes place, under what the container's kernel promises of it: a page that it
  -- declares holds nothing out of order, and a page that it removes is neither in use as the top
  -- table nor linked from another.
  pub data Step (s s' : Monitor) : Type 0 where
    updates : (page_entry val : ℕ) → update_mapping m page_entry val s ≡ done tt s' → Step s s'
    loads : (cr3 : ℕ) → sva_mm_load_pgtable cr3 s ≡ done tt s' → Step s s'
    declares :
        (paddr : ℕ) (t : PageType)
        → EntriesBelow m s (target paddr) t
        → sva_declare_page m paddr t s ≡ done tt s'
        → Step s s'
    removes :
        (paddr : ℕ)
        → IsUnreferenced m s (target paddr)
        → target paddr ≢ target s.cr3
        → sva_remove_page m paddr s ≡ done tt s'
        → Step s s'

  pub data Reach (s : Monitor) : Monitor → Type 0 where
    start : Reach s s
    step : {s' s'' : Monitor} → Reach s s' → Step s' s'' → Reach s s''

  -- The monitor is initialised, the levels are in order, and CR3 names a top table.
  pub record IsSound (s : Monitor) : Type 0 where
    pub on : s.mmu_is_initialized ≡ true
    pub layered : IsLayered m s
    pub root : IsTop s (target s.cr3)

  module _ (direct : DirectMap m) where
    updates-IsSound :
        (s s' : Monitor) (page_entry val : ℕ)
        → IsSound s
        → update_mapping m page_entry val s ≡ done tt s'
        → IsSound s'
    updates-IsSound s s' page_entry val sound e =
        at_end (update_mapping-Updated m s page_entry val sound.on)
      where
        at_end : Updated m s page_entry val (update_mapping m page_entry val s) → IsSound s'
        at_end (changed p e') =
            let same : record s { mem = update s.mem page_entry val } ≡ s' = cc (e, e') in
            record {
              on = subst (λ x. x.mmu_is_initialized ≡ true) same sound.on;
              layered =
                  update_mapping-IsLayered m direct s s' page_entry val sound.on sound.layered e;
              root = subst (λ x. IsTop x (target x.cr3)) same sound.root;
            }
        at_end (stopped n (inl e')) = absurd (cc (e, e'))
        at_end (stopped n (inr e')) = absurd (cc (e, e'))

    pub loads-IsSound :
        (s s' : Monitor) (cr3 : ℕ) → IsSound s → sva_mm_load_pgtable cr3 s ≡ done tt s' → IsSound s'
    loads-IsSound s s' cr3 sound e = at_end (sva_mm_load_pgtable-Loaded cr3 s)
      where
        at_end : Loaded cr3 s (sva_mm_load_pgtable cr3 s) → IsSound s'
        at_end (loaded top e') =
            let same : with_table s cr3 ≡ s' = cc (e, e') in
            subst (λ x. IsSound x) same
              (record { on = sound.on; layered = sound.layered; root = top sound.on })
        at_end (unloaded on low (inl e')) = absurd (cc (e, e'))
        at_end (unloaded on low (inr e')) = absurd (cc (e, e'))
        at_end (waits h e') = absurd (cc (e, e'))

    pub declares-IsSound :
        (s s' : Monitor) (paddr : ℕ) (t : PageType)
        → IsSound s
        → EntriesBelow m s (target paddr) t
        → sva_declare_page m paddr t s ≡ done tt s'
        → IsSound s'
    declares-IsSound s s' paddr t sound below e = at_end (sva_declare_page-Declared m paddr t s)
      where
        layered : IsLayered m s'
        layered = (sva_declare_page-IsLayered m paddr t s s' sound.layered e).1 below

        at_end : Declared m paddr t s (sva_declare_page m paddr t s) → IsSound s'
        at_end (declared log lt free e') =
            let same : retyped s (target paddr) t log ≡ s' = cc (e, e') in
            record {
              on = subst (λ x. x.mmu_is_initialized ≡ true) same sound.on;
              layered = layered;
              root =
                  subst (λ x. IsTop x (target x.cr3)) same
                    (sound.root.0, still_top s (target paddr) (target s.cr3) t free sound.root.1);
            }
        at_end (refused bad e') = absurd (cc (e, e'))
        at_end (locked h e') = absurd (cc (e, e'))

    pub removes-IsSound :
        (s s' : Monitor) (paddr : ℕ)
        → IsSound s
        → IsUnreferenced m s (target paddr)
        → target paddr ≢ target s.cr3
        → sva_remove_page m paddr s ≡ done tt s'
        → IsSound s'
    removes-IsSound s s' paddr sound free other e = at_end (sva_remove_page-Removed m paddr s)
      where
        layered : IsLayered m s'
        layered = (sva_remove_page-IsLayered m paddr s s' sound.layered e).1 free

        at_end : Removed m paddr s (sva_remove_page m paddr s) → IsSound s'
        at_end (removed log lt there e') =
            let same : retyped s (target paddr) unused log ≡ s' = cc (e, e') in
            record {
              on = subst (λ x. x.mmu_is_initialized ≡ true) same sound.on;
              layered = layered;
              root =
                  subst (λ x. IsTop x (target x.cr3)) same
                    (sound.root.0, rw (ne→== (target paddr) (target s.cr3) other) sound.root.1);
            }
        at_end (faulted s'' h e') = absurd (cc (e, e'))
        at_end (locked h e') = absurd (cc (e, e'))

    pub Reach-IsSound : (s s' : Monitor) → IsSound s → Reach s s' → IsSound s'
    Reach-IsSound s s' sound start = sound
    Reach-IsSound s s' sound (step r (updates page_entry val e)) =
        updates-IsSound _ s' page_entry val (Reach-IsSound s _ sound r) e
    Reach-IsSound s s' sound (step r (loads cr3 e)) =
        loads-IsSound _ s' cr3 (Reach-IsSound s _ sound r) e
    Reach-IsSound s s' sound (step r (declares paddr t below e)) =
        declares-IsSound _ s' paddr t (Reach-IsSound s _ sound r) below e
    Reach-IsSound s s' sound (step r (removes paddr free other e)) =
        removes-IsSound _ s' paddr (Reach-IsSound s _ sound r) free other e
