-- ===== src/Monitor/Processors/Races.antt =====
-- What any interleaving of the processors' steps keeps.
use cki_artifact.Base.{
  ℕ, ◌≡◌, ◌≢◌, refl, sym, true, ne→==, inl, inr, ◌==◌, Bool-cases, Option, none, some,
}
use mathlib.Core.Path.{subst}
use cki_artifact.Monitor.State.{
  PageType, unused, Machine, Monitor, DirectMap, done, update, page_entry_store,
}
use cki_artifact.Monitor.Pages.{
  pt_update_is_valid, sva_mm_load_pgtable, sva_declare_page, sva_remove_page,
}
use cki_artifact.Monitor.Frames.{target}
use cki_artifact.Monitor.Levels.{Checked, passes, stops}
use cki_artifact.Monitor.Updates.{Permitted, stored, pt_update_is_valid-Checked}
use cki_artifact.Monitor.Layers.{IsLayered, IsDue, Permitted-IsDue, stored-IsLayered}
use cki_artifact.Monitor.Declared.{
  retyped, Declared, declared, refused, locked, sva_declare_page-Declared, Removed, removed,
  faulted, sva_remove_page-Removed,
}
use cki_artifact.Monitor.Order.{
  EntriesBelow, IsUnreferenced, sva_declare_page-IsLayered, sva_remove_page-IsLayered,
}
use cki_artifact.Monitor.Load.{
  with_table, IsTop, Loaded, loaded, unloaded, waits, sva_mm_load_pgtable-Loaded,
}
use cki_artifact.Monitor.Reach.{IsSound, still_top}
use cki_artifact.Monitor.Processors.{
  Change, Processors, with_cr3, IsAside, Turn, checks, stores, loads, declares, removes, Turns,
  start, turn,
}
use cki_artifact.Monitor.Processors.Pending.{MayStore, declared-IsDue, removed-IsDue}

module _ (m : Machine) where
  -- The monitor is sound whichever processor runs, and each pending change may be stored.
  pub record IsSafe (p : Processors) : Type 0 where
    pub on : p.monitor.mmu_is_initialized ≡ true
    pub layered : IsLayered m p.monitor
    pub roots : (cpu : ℕ) → IsTop p.monitor (target (p.cr3 cpu))
    pub due : (cpu : ℕ) → MayStore m p.monitor (p.pending cpu)

  -- A property of each pending change, over an update of one.
  pending_update :
      (s : Monitor) (pending : ℕ → Option Change) (cpu : ℕ) (o : Option Change)
      → MayStore m s o
      → ((j : ℕ) → MayStore m s (pending j))
      → (j : ℕ) → MayStore m s (update pending cpu o j)
  pending_update s pending cpu o new all j = elim (Bool-cases (cpu == j)) [
    | inl e ↦ rw e new
    | inr e ↦ rw e (all j)
  ]

  -- The top tables of all processors, over a step of one.
  roots_update :
      (s : Monitor) (cr3 : ℕ → ℕ) (cpu new : ℕ)
      → IsTop s (target new)
      → ((j : ℕ) → IsTop s (target (cr3 j)))
      → (j : ℕ) → IsTop s (target (update cr3 cpu new j))
  roots_update s cr3 cpu new top all j = elim (Bool-cases (cpu == j)) [
    | inl e ↦ rw e top
    | inr e ↦ rw e (all j)
  ]

  -- The state after a step of a processor that ends at `s'`.
  abbrev stepped : (cpu : ℕ) (cr3 : ℕ → ℕ) → (ℕ → Option Change) → Monitor → Processors
  stepped cpu cr3 pending s' = record {
    monitor = s';
    cr3 = update cr3 cpu s'.cr3;
    pending = pending;
  }

  -- What a step of another processor leaves.
  MayStore-map :
      (s s' : Monitor) (o : Option Change)
      → ((c : Change) → o ≡ some c → IsDue m s c.page_entry c.val → IsDue m s' c.page_entry c.val)
      → MayStore m s o
      → MayStore m s' o
  MayStore-map s s' none f h = tt
  MayStore-map s s' (some c) f h = f c refl h

  checked-IsSafe :
      (cpu : ℕ) (c : Change) (s s' : Monitor) (cr3 : ℕ → ℕ) (pending : ℕ → Option Change)
      → pt_update_is_valid m c.page_entry c.val (with_cr3 s (cr3 cpu)) ≡ done tt s'
      → IsSafe (record { monitor = s; cr3 = cr3; pending = pending })
      → IsSafe (stepped cpu cr3 (update pending cpu (some c)) s')
  checked-IsSafe cpu c s s' cr3 pending e safe =
      at_end (pt_update_is_valid-Checked m (with_cr3 s (cr3 cpu)) c.page_entry c.val)
    where
      at_end :
          Checked
            (Permitted m (with_cr3 s (cr3 cpu)) c.page_entry c.val)
            (with_cr3 s (cr3 cpu))
            (pt_update_is_valid m c.page_entry c.val (with_cr3 s (cr3 cpu)))
          → IsSafe (stepped cpu cr3 (update pending cpu (some c)) s')
      at_end (passes p e') =
          let same : with_cr3 s (cr3 cpu) ≡ s' = cc (e, e') in
          subst (λ x. IsSafe (stepped cpu cr3 (update pending cpu (some c)) x)) same
            (record {
              on = safe.on;
              layered = safe.layered;
              roots = roots_update s cr3 cpu (cr3 cpu) (safe.roots cpu) safe.roots;
              due =
                  pending_update s pending cpu (some c)
                    (Permitted-IsDue m (with_cr3 s (cr3 cpu)) c.page_entry c.val p) safe.due;
            })
      at_end (stops n (inl e')) = absurd (cc (e, e'))
      at_end (stops n (inr e')) = absurd (cc (e, e'))

  module _ (direct : DirectMap m) where
    stored-IsSafe :
        (cpu : ℕ) (c : Change) (s s' : Monitor) (cr3 : ℕ → ℕ) (pending : ℕ → Option Change)
        → pending cpu ≡ some c
        → page_entry_store c.page_entry c.val (with_cr3 s (cr3 cpu)) ≡ done tt s'
        → IsSafe (record { monitor = s; cr3 = cr3; pending = pending })
        → IsSafe (stepped cpu cr3 (update pending cpu none) s')
    unfolding page_entry_store
    stored-IsSafe cpu c s s' cr3 pending some_c e safe =
        let due : IsDue m s c.page_entry c.val = subst (MayStore m s) some_c (safe.due cpu) in
        let s'' = stored (with_cr3 s (cr3 cpu)) c.page_entry c.val in
        let same : s'' ≡ s' = cc e in
        subst (λ x. IsSafe (stepped cpu cr3 (update pending cpu none) x)) same
          (record {
            on = safe.on;
            layered = stored-IsLayered m direct s c.page_entry c.val safe.layered due;
            roots = roots_update s cr3 cpu (cr3 cpu) (safe.roots cpu) safe.roots;
            due =
                pending_update s'' pending cpu none tt
                  λ j. MayStore-map s s'' (pending j) (λ _ _ h. h) (safe.due j);
          })

    loads-IsSafe :
        (cpu table : ℕ) (s s' : Monitor) (cr3 : ℕ → ℕ) (pending : ℕ → Option Change)
        → sva_mm_load_pgtable table (with_cr3 s (cr3 cpu)) ≡ done tt s'
        → IsSafe (record { monitor = s; cr3 = cr3; pending = pending })
        → IsSafe (stepped cpu cr3 pending s')
    loads-IsSafe cpu table s s' cr3 pending e safe =
        at_end (sva_mm_load_pgtable-Loaded table (with_cr3 s (cr3 cpu)))
      where
        at_end :
            Loaded table (with_cr3 s (cr3 cpu)) (sva_mm_load_pgtable table (with_cr3 s (cr3 cpu)))
            → IsSafe (stepped cpu cr3 pending s')
        at_end (loaded top e') =
            let s'' = with_table (with_cr3 s (cr3 cpu)) table in
            let same : s'' ≡ s' = cc (e, e') in
            subst (λ x. IsSafe (stepped cpu cr3 pending x)) same
              (record {
                on = safe.on;
                layered = safe.layered;
                roots = roots_update s cr3 cpu s''.cr3 (top safe.on) safe.roots;
                due = λ j. MayStore-map s s'' (pending j) (λ _ _ h. h) (safe.due j);
              })
        at_end (unloaded on low (inl e')) = absurd (cc (e, e'))
        at_end (unloaded on low (inr e')) = absurd (cc (e, e'))
        at_end (waits h e') = absurd (cc (e, e'))

    declares-IsSafe :
        (cpu paddr : ℕ) (t : PageType) (s s' : Monitor) (cr3 : ℕ → ℕ) (pending : ℕ → Option Change)
        → EntriesBelow m s (target paddr) t
        → sva_declare_page m paddr t (with_cr3 s (cr3 cpu)) ≡ done tt s'
        → IsSafe (record { monitor = s; cr3 = cr3; pending = pending })
        → IsSafe (stepped cpu cr3 pending s')
    declares-IsSafe cpu paddr t s s' cr3 pending below e safe =
        at_end (sva_declare_page-Declared m paddr t (with_cr3 s (cr3 cpu)))
      where
        layered : IsLayered m s'
        layered =
            (sva_declare_page-IsLayered m paddr t (with_cr3 s (cr3 cpu)) s' safe.layered e).1 below

        at_end :
            Declared m paddr t
              (with_cr3 s (cr3 cpu))
              (sva_declare_page m paddr t (with_cr3 s (cr3 cpu)))
            → IsSafe (stepped cpu cr3 pending s')
        at_end (declared log lt free e') =
            let s'' = retyped (with_cr3 s (cr3 cpu)) (target paddr) t log in
            let same : s'' ≡ s' = cc (e, e') in
            let kept : (j : ℕ) → IsTop s'' (target (cr3 j)) = λ j. (
              (safe.roots j).0,
              still_top s (target paddr) (target (cr3 j)) t free (safe.roots j).1,
            ) in
            subst (λ x. IsSafe (stepped cpu cr3 pending x)) same
              (record {
                on = safe.on;
                layered = subst (λ x. IsLayered m x) (sym same) layered;
                roots = roots_update s'' cr3 cpu (cr3 cpu) (kept cpu) kept;
                due = λ j.
                    MayStore-map s s'' (pending j)
                      (λ c _.
                        declared-IsDue m s (target paddr) safe.layered log t c.page_entry c.val
                          free)
                      (safe.due j);
              })
        at_end (refused bad e') = absurd (cc (e, e'))
        at_end (locked h e') = absurd (cc (e, e'))

    removes-IsSafe :
        (cpu paddr : ℕ) (s s' : Monitor) (cr3 : ℕ → ℕ) (pending : ℕ → Option Change)
        → IsUnreferenced m s (target paddr)
        → ((j : ℕ) → target paddr ≢ target (cr3 j))
        → ((j : ℕ) → IsAside m (target paddr) (pending j))
        → sva_remove_page m paddr (with_cr3 s (cr3 cpu)) ≡ done tt s'
        → IsSafe (record { monitor = s; cr3 = cr3; pending = pending })
        → IsSafe (stepped cpu cr3 pending s')
    removes-IsSafe cpu paddr s s' cr3 pending free other aside e safe =
        at_end (sva_remove_page-Removed m paddr (with_cr3 s (cr3 cpu)))
      where
        layered : IsLayered m s'
        layered =
            (sva_remove_page-IsLayered m paddr (with_cr3 s (cr3 cpu)) s' safe.layered e).1 free

        at_end :
            Removed m paddr (with_cr3 s (cr3 cpu)) (sva_remove_page m paddr (with_cr3 s (cr3 cpu)))
            → IsSafe (stepped cpu cr3 pending s')
        at_end (removed log lt there e') =
            let s'' = retyped (with_cr3 s (cr3 cpu)) (target paddr) unused log in
            let same : s'' ≡ s' = cc (e, e') in
            let kept : (j : ℕ) → IsTop s'' (target (cr3 j)) = λ j. (
              (safe.roots j).0,
              rw (ne→== (target paddr) (target (cr3 j)) (other j)) (safe.roots j).1,
            ) in
            subst (λ x. IsSafe (stepped cpu cr3 pending x)) same
              (record {
                on = safe.on;
                layered = subst (λ x. IsLayered m x) (sym same) layered;
                roots = roots_update s'' cr3 cpu (cr3 cpu) (kept cpu) kept;
                due = λ j.
                    MayStore-map s s'' (pending j)
                      (λ c some_c.
                        removed-IsDue m s (target paddr) safe.layered log c
                          (subst (IsAside m (target paddr)) some_c (aside j)))
                      (safe.due j);
              })
        at_end (faulted s'' h e') = absurd (cc (e, e'))
        at_end (locked h e') = absurd (cc (e, e'))

    Turn-IsSafe : (p q : Processors) → IsSafe p → Turn m p q → IsSafe q
    Turn-IsSafe _ _ safe (checks cpu c s s' cr3 pending idle e) =
        checked-IsSafe cpu c s s' cr3 pending e safe
    Turn-IsSafe _ _ safe (stores cpu c s s' cr3 pending some_c e) =
        stored-IsSafe cpu c s s' cr3 pending some_c e safe
    Turn-IsSafe _ _ safe (loads cpu table s s' cr3 pending e) =
        loads-IsSafe cpu table s s' cr3 pending e safe
    Turn-IsSafe _ _ safe (declares cpu paddr t s s' cr3 pending below e) =
        declares-IsSafe cpu paddr t s s' cr3 pending below e safe
    Turn-IsSafe _ _ safe (removes cpu paddr s s' cr3 pending free other aside e) =
        removes-IsSafe cpu paddr s s' cr3 pending free other aside e safe

    Turns-IsSafe : (p q : Processors) → IsSafe p → Turns m p q → IsSafe q
    Turns-IsSafe p q safe start = safe
    Turns-IsSafe p q safe (turn ts t) = Turn-IsSafe _ q (Turns-IsSafe p _ safe ts) t

  -- Whatever the order in which several processors, each with its own CR3, check changes of
  -- entries, store what they have checked, load tables, and declare and remove pages: from a state
  -- that is sound for the CR3 of each, with nothing pending, the monitor's state stays sound for
  -- the CR3 of each, though update_mapping takes no lock between its check and its store. What is
  -- asked of the steps: a page that is declared holds nothing out of order; a page that is removed
  -- is in no processor's CR3 nor linked from another table, and no change that a processor has
  -- checked and not yet stored lies in it or points to it. Condition: the kernel's direct map is
  -- one.
  pub Turns-IsSound :
      (s : Monitor) (cr3 : ℕ → ℕ) (q : Processors)
      → DirectMap m
      → ((cpu : ℕ) → IsSound m (with_cr3 s (cr3 cpu)))
      → Turns m (record { monitor = s; cr3 = cr3; pending = λ _. none }) q
      → (cpu : ℕ) → IsSound m (with_cr3 q.monitor (q.cr3 cpu))
  Turns-IsSound s cr3 q direct sound ts cpu =
      let first : IsSafe (record { monitor = s; cr3 = cr3; pending = λ _. none }) = record {
        on = (sound 0).on;
        layered = (sound 0).layered;
        roots = λ j. (sound j).root;
        due = λ _. tt;
      } in
      let safe =
        Turns-IsSafe direct (record { monitor = s; cr3 = cr3; pending = λ _. none }) q first ts in
      record { on = safe.on; layered = safe.layered; root = safe.roots cpu }
