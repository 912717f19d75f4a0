-- ===== src/Pkm/Create/Numbering.antt =====
-- Which process-context identifier a creation gives its container, and what becomes of the counter.
use cki_artifact.Base.{
  ℕ, ◌+◌, ◌≤◌, ◌≡◌, refl, ap, arith, inl, inr, not, ◌==◌, ltb, if◌then◌else◌, if_both, Bool-cases,
  u32,
}
use cki_artifact.Pkm.Abi.{
  CntrArgs, cntr_max_pcid, cntr_mem_npages, cntr_initrd_npages, enomem, einval, eoverflow,
}
use cki_artifact.Pkm.State.{Cntr, CntrCpu}
use cki_artifact.Pkm.World.{Kernel, World, Run, ◌>>=◌}
use cki_artifact.Pkm.Outcome.{Ensures, on_done, Ensures-if, Ensures-and_then}
use cki_artifact.Pkm.Boot.{create_cpus, init_ctxs, create_boot_pgtbl, create_boot_params}
use cki_artifact.Pkm.Boot.Pgtbl
use cki_artifact.Pkm.Boot.Params
use cki_artifact.Pkm.Create.{
  out_free_boot_pgtbl, open_file, reserve_fd, init_cntr, make_params, make_cpus, make_pgtbl,
  pin_initrd, pin_mem2, pin_mem, get_user_page, is_one, next_pcid, kmalloc_cntr, create_cntr,
}
use cki_artifact.Pkm.Create.Failures.{
  Counted, failed, numbered, Ends, open_file-cases, reserve_fd-cases, out_free_cntr-Ends,
  out_put_mem_hpage-Ends, out_put_mem2_hpage-Ends, out_put_initrd_hpage-Ends,
  out_free_boot_pgtbl-Ends, out_free_boot_params-Ends, out_free_cpus-Ends,
}

module _ (n : ℕ) (k : Kernel) where
  -- The container has its number and the counter is past it.
  abbrev Given : Cntr → World → Type 0
  Given c w = (c.pcid ≡ n) × (n ≤ 100) × (w.next_cntr_pcid ≡ u32 (n + 1))

  open_file-Ends : (c : Cntr) (m : ℕ) (w : World) → Given c w → Ends n (open_file k c m w)
  open_file-Ends c m w (same, small, next) = elim (open_file-cases k c m w) [
    | inl (f, e) ↦ rw e (on_done (numbered c refl same small next))
    | inr (z, e) ↦ rw e (out_free_cpus-Ends n k c z _ (inr next))
  ]

  reserve_fd-Ends : (c : Cntr) (w : World) → Given c w → Ends n (reserve_fd k c w)
  reserve_fd-Ends c w g = elim (reserve_fd-cases k c w) [
    | inl (m, e) ↦ rw e (open_file-Ends c m _ g)
    | inr (z, e) ↦ rw e (out_free_boot_params-Ends n k c z w (inr g.2))
  ]

  make_params-Ends :
      (c : Cntr) (args : CntrArgs) (w : World) → Given c w → Ends n (make_params k c args w)
  unfolding make_params init_cntr init_ctxs
  make_params-Ends c args w g =
      Ensures-and_then (create_boot_params k c args w) _
        (quiet (Params.create_boot_params-MadeParams k c args w))
        λ p w' next.
          Ensures-if (p == 0) _ _ w'
            (out_free_cpus-Ends n k (record c { boot_params = p }) enomem w' (inr next))
            (reserve_fd-Ends (init_cntr k (record c { boot_params = p })) w' (g.0, g.1, next))
    where
      quiet :
          {r : Run ℕ}
          → Params.MadeParams k c args w r
          → Ensures (Counted n) (λ _ w'. w'.next_cntr_pcid ≡ u32 (n + 1)) r
      quiet (Params.none_first z e) = rw e (on_done g.2)
      quiet (Params.none_second z e) = rw e (on_done g.2)
      quiet (Params.made z z' e) = rw e (on_done g.2)

  make_cpus-Ends :
      (c : Cntr) (args : CntrArgs) (w : World) → Given c w → Ends n (make_cpus k c args w)
  unfolding make_cpus create_cpus
  make_cpus-Ends c args w g =
      Ensures-and_then (create_cpus k c w) _
        (if_both Taken (k.kcalloc_cpus w.log == 0) (on_done g.2) (on_done g.2))
        λ r w' next.
          Ensures-if (r.0 == 0) _ _ w'
            (out_free_boot_pgtbl-Ends n k (record c { cpus = r.0; cpu = r.1 }) enomem w' (inr next))
            (make_params-Ends (record c { cpus = r.0; cpu = r.1 }) args w' (g.0, g.1, next))
    where
      Taken : Run (ℕ × (ℕ → CntrCpu)) → Type 0
      Taken = Ensures (Counted n) λ _ w'. w'.next_cntr_pcid ≡ u32 (n + 1)

  make_pgtbl-Ends :
      (c : Cntr) (args : CntrArgs) (w : World)
      → w.next_cntr_pcid ≡ n
      → Ends n (make_pgtbl k c args w)
  unfolding make_pgtbl next_pcid
  make_pgtbl-Ends c args w h =
      Ensures-and_then (create_boot_pgtbl k w) _ (quiet (Pgtbl.create_boot_pgtbl-MadePgtbl k w))
        λ p w' same.
          Ensures-if (p == 0) _ _ w' (out_put_initrd_hpage-Ends n c enomem w' (inl same))
            (numbered_next p w' same)
    where
      numbered_next :
          (p : ℕ) (w' : World)
          → w'.next_cntr_pcid ≡ n
          → Ends n (
              (next_pcid >>= λ pcid.
              let c' = record c { boot_pgtbl = p; pcid = pcid } in
              if ltb cntr_max_pcid pcid
              then out_free_boot_pgtbl k c' eoverflow
              else make_cpus k c' args)
                w')
      numbered_next p w' same =
          let c' = record c { boot_pgtbl = p; pcid = w'.next_cntr_pcid } in
          let past : u32 (w'.next_cntr_pcid + 1) ≡ u32 (n + 1) = ap (λ t. u32 (t + 1)) same in
          elim (Bool-cases (ltb 100 w'.next_cntr_pcid)) [
            | inl e ↦ rw e (out_free_boot_pgtbl-Ends n k c' eoverflow _ (inr past))
            | inr e ↦ rw e (make_cpus-Ends c' args _ (same, ground arith, past))
          ]

      quiet :
          {p q : ℕ} {r : Run ℕ}
          → Pgtbl.MadePgtbl k w p q r
          → Ensures (Counted n) (λ _ w'. w'.next_cntr_pcid ≡ n) r
      quiet (Pgtbl.none_first z e) = rw e (on_done h)
      quiet (Pgtbl.none_second z e) = rw e (on_done h)
      quiet (Pgtbl.made z z' e) = rw e (on_done h)

  get_user_page-same :
      (addr : ℕ) (w : World)
      → w.next_cntr_pcid ≡ n
      → Ensures (Counted n) (λ _ w'. w'.next_cntr_pcid ≡ n) (get_user_page k addr w)
  unfolding get_user_page
  get_user_page-same addr w h = on_done (
      if_both (λ (w' : World). w'.next_cntr_pcid ≡ n) (is_one k (k.get_user_pages w.log addr).0) h
        h)

  pin_initrd-Ends :
      (c : Cntr) (args : CntrArgs) (w : World)
      → w.next_cntr_pcid ≡ n
      → Ends n (pin_initrd k c args w)
  unfolding pin_initrd
  pin_initrd-Ends c args w h =
      Ensures-and_then (get_user_page k args.initrd w) _ (get_user_page-same args.initrd w h)
        λ a w' same.
          let c' = record c { initrd_hpage = a.1 } in
          Ensures-if (not (is_one k a.0)) _ _ w' (out_put_mem2_hpage-Ends n c' a.0 w' (inl same)) (
            Ensures-if (not (k.compound_nr a.1 == cntr_initrd_npages)) _ _ w'
              (out_put_initrd_hpage-Ends n c' einval w' (inl same))
              (make_pgtbl-Ends c' args w' same))

  pin_mem2-Ends :
      (c : Cntr) (args : CntrArgs) (w : World) → w.next_cntr_pcid ≡ n → Ends n (pin_mem2 k c args w)
  unfolding pin_mem2
  pin_mem2-Ends c args w h =
      Ensures-and_then (get_user_page k args.mem2 w) _ (get_user_page-same args.mem2 w h)
        λ a w' same.
          let c' = record c { mem2_hpage = a.1 } in
          Ensures-if (not (is_one k a.0)) _ _ w' (out_put_mem_hpage-Ends n c' a.0 w' (inl same)) (
            Ensures-if (not (k.compound_nr a.1 == cntr_mem_npages)) _ _ w'
              (out_put_mem2_hpage-Ends n c' einval w' (inl same)) (pin_initrd-Ends c' args w' same))

  pin_mem-Ends :
      (c : Cntr) (args : CntrArgs) (w : World) → w.next_cntr_pcid ≡ n → Ends n (pin_mem k c args w)
  unfolding pin_mem
  pin_mem-Ends c args w h =
      Ensures-and_then (get_user_page k args.mem w) _ (get_user_page-same args.mem w h) λ a w' same.
        let c' = record c { mem_hpage = a.1 } in
        Ensures-if (not (is_one k a.0)) _ _ w' (out_free_cntr-Ends n c' a.0 w' (inl same)) (
          Ensures-if (not (k.compound_nr a.1 == cntr_mem_npages)) _ _ w'
            (out_put_mem_hpage-Ends n c' einval w' (inl same)) (pin_mem2-Ends c' args w' same))

-- Where the counter stands at `n`, a request that creates a container gives it `n` as its
-- identifier, which is then at most 100, and moves the counter one further; where it fails or
-- faults, the counter is where it was or one further, and there is no container.
pub create_cntr-Numbered : (k : Kernel) (w : World) → Ends w.next_cntr_pcid (create_cntr k w)
unfolding create_cntr
create_cntr-Numbered k w =
    let n = w.next_cntr_pcid in
    let args = (k.copy_cntr_args w.log).1 in
    let contents = k.kmalloc_contents w.log in
    let Taken : Run ℕ → Type 0 = Ensures (Counted n) λ _ w'. w'.next_cntr_pcid ≡ n in
    if_both (Ends n) (not ((k.copy_cntr_args w.log).0 == 0)) (on_done (failed refl (inl refl))) (
      Ensures-and_then (kmalloc_cntr k w) _
        (if_both Taken (k.kmalloc_cntr w.log == 0) (on_done refl) (on_done refl))
        λ p w' same. Ensures-if (p == 0) _ _ w' (on_done (failed refl (inl same))) (
          pin_mem-Ends n k (record contents { self = p; n_cpus = k.num_online_cpus }) args w' same))
