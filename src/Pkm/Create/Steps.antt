-- ===== src/Pkm/Create/Steps.antt =====
-- A creation from the array of processors on: the boot parameters, and how each step ends.
use cki_artifact.Base.{
  ℕ, ◌≡◌, ◌≢◌, refl, arith, ◌⊎◌, inl, inr, ◌==◌, if◌then◌else◌, if_cases, ne→==, eq→==, ◌∷◌,
}
use cki_artifact.Pkm.Abi.{CntrArgs, enomem}
use cki_artifact.Pkm.State.{Cntr, CntrCpu}
use cki_artifact.Pkm.World.{Kernel, World, Log, page, slab, acquire, Run}
use cki_artifact.Pkm.Balance.{Holds}
use cki_artifact.Pkm.Laws.{PageLaws}
use cki_artifact.Pkm.Outcome.{Ensures, on_done, on_oops, Ensures-and_then}
use cki_artifact.Pkm.Boot.{create_cpus, init_ctxs, create_boot_params}
use cki_artifact.Pkm.Mmio.{init_virtio_net}
use cki_artifact.Pkm.Boot.Params
use cki_artifact.Pkm.Create.{
  out_free_boot_pgtbl, reserve_fd, init_cntr, make_params, make_cpus, out_free_cpus,
}
use cki_artifact.Pkm.Create.Cleanup.{
  Table, Params, Table-mem, Table-log, out_free_boot_pgtbl_lem, out_free_cpus-null,
}
use cki_artifact.Pkm.Create.Settled.{
  with_pgtbl, with_cpus, nothing_left, Crashed, table_left, Ends, reserve_fd-Ends,
}

module _ (k : Kernel) (base : Log) where
  -- What the two pages of boot parameters come to.
  abbrev Readied : (c : Cntr) (pud p : ℕ) → World → Type 0
  Readied c pud p w =
      ((p ≡ 0) × Holds base w.log (with_cpus c pud))
      ⊎ ((cmdline : ℕ) × Table k w c.boot_pgtbl pud
          × Params k w c p cmdline
          × Holds base w.log (page p ∷ page cmdline ∷ with_cpus c pud))

  create_boot_params-Readied :
      (laws : PageLaws k) (c : Cntr) (pud : ℕ) (args : CntrArgs) (w : World)
      → Table k w c.boot_pgtbl pud
      → Holds base w.log (with_cpus c pud)
      → Ensures (Crashed base) (Readied c pud) (create_boot_params k c args w)
  create_boot_params-Readied laws c pud args w t h =
      outcome (Params.create_boot_params-MadeParams k c args w)
    where
      outcome :
          {r : Run ℕ} → Params.MadeParams k c args w r → Ensures (Crashed base) (Readied c pud) r
      outcome (Params.none_first z e) = rw e (on_done (inl (refl, h)))
      outcome (Params.none_second z e) = rw e (on_done (inl (refl, λ r. omega (arith, h r))))
      outcome (Params.made z z' e) = rw e (
          on_done (
            inr (
              Params.cmdline_page k c args w,
              Table-mem (Params.params_world k c args w) refl t,
              record {
                there = z;
                cmdline_there = z';
                fits = omega (
                  arith,
                  laws.phys_fits (acquire (page (Params.params_page k c args w)) ∷ w.log),
                );
                direct = laws.direct_map (acquire (page (Params.params_page k c args w)) ∷ w.log);
                written =
                    rw (eq→== (Params.params_page k c args w) (Params.params_page k c args w) refl)
                      refl;
              },
              λ r. omega (arith, h r),
            )))

  make_params-Ends :
      (laws : PageLaws k) (c : Cntr) (pud : ℕ) (args : CntrArgs) (w : World)
      → c.self ≢ 0
      → c.cpus ≢ 0
      → Table k w c.boot_pgtbl pud
      → Holds base w.log (with_cpus c pud)
      → Ends k base (make_params k c args w)
  unfolding make_params init_cntr init_ctxs init_virtio_net
  make_params-Ends laws c pud args w there cpus_there t h =
      Ensures-and_then (create_boot_params k c args w) _
        (create_boot_params-Readied laws c pud args w t h) next
    where
      next :
          (p : ℕ) (w' : World)
          → Readied c pud p w'
          → Ends k base (
              (if p == 0
                  then out_free_cpus k (record c { boot_params = p }) enomem
                  else reserve_fd k (init_cntr k (record c { boot_params = p })))
                w')
      next p w' (inl (z, h')) =
          let c' = record c { boot_params = p } in
          rw (eq→== p 0 z, out_free_cpus-null k c' enomem w' cpus_there z)
            (on_oops (table_left c' pud λ r. omega (arith, h' r)))
      next p w' (inr (cmdline, t', ps, h')) = rw (ne→== p 0 ps.there) (
          reserve_fd-Ends k base (init_cntr k (record c { boot_params = p })) pud cmdline w'
            (record {
              made_for = c;
              there = there;
              cpus_there = cpus_there;
              table = t';
              params = ps;
            })
            (refl, refl, refl, refl) h')

  pub make_cpus-Ends :
      (laws : PageLaws k) (c : Cntr) (pud : ℕ) (args : CntrArgs) (w : World)
      → c.self ≢ 0
      → Table k w c.boot_pgtbl pud
      → Holds base w.log (with_pgtbl c pud)
      → Ends k base (make_cpus k c args w)
  unfolding make_cpus create_cpus
  make_cpus-Ends laws c pud args w there t h =
      Ensures-and_then (create_cpus k c w) _
        (if_cases Taken (k.kcalloc_cpus w.log == 0) (λ z. on_done (t, inl (refl, h)))
          λ nz.
            on_done
              (Table-log _ t, inr ((λ z. absurd (ground (arith, nz, z))), λ r. omega (arith, h r))))
        next
    where
      Ready : ℕ × (ℕ → CntrCpu) → World → Type 0
      Ready a w' =
          Table k w' c.boot_pgtbl pud
          × (((a.0 ≡ 0) × Holds base w'.log (with_pgtbl c pud))
              ⊎ ((a.0 ≢ 0) × Holds base w'.log (slab a.0 ∷ with_pgtbl c pud)))

      Taken : Run (ℕ × (ℕ → CntrCpu)) → Type 0
      Taken = Ensures (Crashed base) Ready

      next :
          (a : ℕ × (ℕ → CntrCpu)) (w' : World)
          → Ready a w'
          → Ends k base (
              (if a.0 == 0
                  then out_free_boot_pgtbl k (record c { cpus = a.0; cpu = a.1 }) enomem
                  else make_params k (record c { cpus = a.0; cpu = a.1 }) args)
                w')
      next a w' (t', inl (z, h')) =
          rw
            (
              eq→== a.0 0 z,
              out_free_boot_pgtbl_lem k (record c { cpus = a.0; cpu = a.1 }) enomem w' pud there t',
            )
            (on_done (nothing_left refl λ r. omega (arith, h' r)))
      next a w' (t', inr (nz, h')) =
          rw (ne→== a.0 0 nz)
            (make_params-Ends laws (record c { cpus = a.0; cpu = a.1 }) pud args w' there nz t' h')
