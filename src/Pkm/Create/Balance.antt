-- ===== src/Pkm/Create/Balance.antt =====
-- What a creation holds afterwards, on each of its ways out.
use cki_artifact.Base.{
  ℕ, ◌+◌, ◌≡◌, ◌≢◌, refl, arith, ◌⊎◌, inl, inr, true, false, not, ◌==◌, ltb, if◌then◌else◌, if_both,
  if_cases, Bool-cases, ne→==, eq→==, u32, ℤ, List, [], ◌∷◌,
}
use cki_artifact.Pkm.Abi.{
  CntrArgs, cntr_max_pcid, cntr_mem_npages, cntr_initrd_npages, enomem, einval, eoverflow,
}
use cki_artifact.Pkm.State.{Cntr}
use cki_artifact.Pkm.World.{
  Kernel, World, Log, Resource, page, slab, pinned, acquire, Run, Cmd, ◌>>=◌,
}
use cki_artifact.Pkm.Balance.{Holds}
use cki_artifact.Pkm.Laws.{PageLaws}
use cki_artifact.Pkm.Outcome.{Ensures, on_done, Ensures-if, Ensures-cases, Ensures-and_then}
use cki_artifact.Pkm.Boot.{create_boot_pgtbl}
use cki_artifact.Pkm.Boot.Pgtbl
use cki_artifact.Pkm.Boot.Identity.{boot_mem-first}
use cki_artifact.Pkm.Create.{
  Created, out_fail, out_put_initrd_hpage, out_free_boot_pgtbl, make_cpus, make_pgtbl, pin_initrd,
  pin_mem2, pin_mem, get_user_page, is_one, next_pcid, kmalloc_cntr, create_cntr,
}
use cki_artifact.Pkm.Create.Cleanup.{Table, Table-mem, out_free_boot_pgtbl_lem}
use cki_artifact.Pkm.Create.Settled.{
  pins, nothing_left, Crashed, Ends, out_free_cntr-Ends, out_put_mem_hpage-Ends,
  out_put_mem2_hpage-Ends, out_put_initrd_hpage-Ends,
}
use cki_artifact.Pkm.Create.Steps.{make_cpus-Ends}

module _ (k : Kernel) (base : Log) where
  -- What the two pages of the boot table come to.
  abbrev Tabled : (c : Cntr) (p : ℕ) → World → Type 0
  Tabled c p w =
      ((p ≡ 0) × Holds base w.log (pins c))
      ⊎ ((pud : ℕ) × Table k w p pud × Holds base w.log (page p ∷ page pud ∷ pins c))

  create_boot_pgtbl-Tabled :
      (laws : PageLaws k) (c : Cntr) (w : World)
      → Holds base w.log (pins c)
      → Ensures (Crashed base) (Tabled c) (create_boot_pgtbl k w)
  create_boot_pgtbl-Tabled laws c w h = outcome (Pgtbl.create_boot_pgtbl-MadePgtbl k w)
    where
      outcome :
          {r : Run ℕ}
          → Pgtbl.MadePgtbl k w (Pgtbl.first_page k w) (Pgtbl.second_page k w) r
          → Ensures (Crashed base) (Tabled c) r
      outcome (Pgtbl.none_first z e) = rw e (on_done (inl (refl, h)))
      outcome (Pgtbl.none_second z e) = rw e (on_done (inl (refl, λ r. omega (arith, h r))))
      outcome (Pgtbl.made z z' e) =
          let log = acquire (page (Pgtbl.first_page k w)) ∷ w.log in
          rw e (
            on_done (
              inr (
                Pgtbl.second_page k w,
                record {
                  there = z;
                  pud_there = z';
                  low = laws.phys_aligned log;
                  fits = laws.phys_fits log;
                  direct = laws.direct_map log;
                  points =
                      boot_mem-first k (Pgtbl.first_page k w) (Pgtbl.second_page k w) w.mem
                        (laws.aligned w.log) (laws.aligned log) (laws.fresh w.log);
                },
                λ r. omega (arith, h r),
              )))

  make_pgtbl-Ends :
      (laws : PageLaws k) (c : Cntr) (args : CntrArgs) (w : World)
      → c.self ≢ 0
      → Holds base w.log (pins c)
      → Ends k base (make_pgtbl k c args w)
  unfolding make_pgtbl next_pcid
  make_pgtbl-Ends laws c args w there h =
      Ensures-and_then (create_boot_pgtbl k w) _ (create_boot_pgtbl-Tabled laws c w h) next
    where
      next :
          (p : ℕ) (w' : World)
          → Tabled c p w'
          → Ends k base (
              (if p == 0
                  then out_put_initrd_hpage c enomem
                  else (next_pcid >>= λ pcid.
                      let c' = record c { boot_pgtbl = p; pcid = pcid } in
                      if ltb cntr_max_pcid pcid
                      then out_free_boot_pgtbl k c' eoverflow
                      else make_cpus k c' args))
                w')
      next p w' (inl (z, h')) =
          rw (eq→== p 0 z) (out_put_initrd_hpage-Ends k base c enomem w' there h')
      next p w' (inr (pud, t, h')) =
          let c' = record c { boot_pgtbl = p; pcid = w'.next_cntr_pcid } in
          let w'' = record w' { next_cntr_pcid = u32 (w'.next_cntr_pcid + 1) } in
          let t' : Table k w'' p pud = Table-mem w'' refl t in
          rw (ne→== p 0 t.there) (
            Ensures-if (ltb cntr_max_pcid w'.next_cntr_pcid) _ _ w''
              (rw (out_free_boot_pgtbl_lem k c' eoverflow w'' pud there t')
                (on_done (nothing_left refl λ r. omega (arith, h' r))))
              (make_cpus-Ends k base laws c' pud args w'' there t' h'))

  -- A page of the user is pinned where the answer is 1, and nothing happens otherwise.
  abbrev Pinned : (rs : List Resource) (a : ℤ × ℕ) → World → Type 0
  Pinned rs a w =
      ((is_one k a.0 ≡ true) × Holds base w.log (pinned a.1 ∷ rs))
      ⊎ ((is_one k a.0 ≡ false) × Holds base w.log rs)

  get_user_page-Pinned :
      (rs : List Resource) (addr : ℕ) (w : World)
      → Holds base w.log rs
      → Ensures (Crashed base) (Pinned rs) (get_user_page k addr w)
  unfolding get_user_page
  get_user_page-Pinned rs addr w h = elim (Bool-cases (is_one k (k.get_user_pages w.log addr).0)) [
    | inl e ↦ on_done (inl (e, rw e λ r. omega (arith, h r)))
    | inr e ↦ on_done (inr (e, rw e h))
  ]

  -- Pinning one page: refused, of a wrong size, or pinned.
  module _ (rs : List Resource) (addr npages : ℕ) (w : World)
      (refused wrong next : ℤ × ℕ → Cmd Created) where
    pin-Ends :
        Holds base w.log rs
        → ((a : ℤ × ℕ) (w' : World) → Holds base w'.log rs → Ends k base (refused a w'))
        → ((a : ℤ × ℕ) (w' : World)
            → Holds base w'.log (pinned a.1 ∷ rs)
            → Ends k base (wrong a w'))
        → ((a : ℤ × ℕ) (w' : World) → Holds base w'.log (pinned a.1 ∷ rs) → Ends k base (next a w'))
        → Ends k base (
            (get_user_page k addr >>= λ a.
            if not (is_one k a.0)
            then refused a
            else if not (k.compound_nr a.1 == npages)
            then wrong a
            else next a)
              w)
    pin-Ends h on_refused on_wrong on_next =
        Ensures-and_then (get_user_page k addr w) _ (get_user_page-Pinned rs addr w h) step
      where
        step :
            (a : ℤ × ℕ) (w' : World)
            → Pinned rs a w'
            → Ends k base (
                (if not (is_one k a.0)
                    then refused a
                    else if not (k.compound_nr a.1 == npages)
                    then wrong a
                    else next a)
                  w')
        step a w' (inr (e, h')) = rw e (on_refused a w' h')
        step a w' (inl (e, h')) = rw e (
            Ensures-if (not (k.compound_nr a.1 == npages)) _ _ w' (on_wrong a w' h')
              (on_next a w' h'))

  module _ (laws : PageLaws k) (args : CntrArgs) where
    pin_initrd-Ends :
        (c : Cntr) (w : World)
        → c.self ≢ 0
        → Holds base w.log (pinned c.mem2_hpage ∷ pinned c.mem_hpage ∷ slab c.self ∷ [])
        → Ends k base (pin_initrd k c args w)
    unfolding pin_initrd
    pin_initrd-Ends c w there h =
        pin-Ends (pinned c.mem2_hpage ∷ pinned c.mem_hpage ∷ slab c.self ∷ []) args.initrd
          cntr_initrd_npages w _ _ _ h
          (λ a w' h'.
            out_put_mem2_hpage-Ends k base (record c { initrd_hpage = a.1 }) a.0 w' there h')
          (λ a w' h'.
            out_put_initrd_hpage-Ends k base (record c { initrd_hpage = a.1 }) einval w' there h')
          λ a w' h'. make_pgtbl-Ends laws (record c { initrd_hpage = a.1 }) args w' there h'

    pin_mem2-Ends :
        (c : Cntr) (w : World)
        → c.self ≢ 0
        → Holds base w.log (pinned c.mem_hpage ∷ slab c.self ∷ [])
        → Ends k base (pin_mem2 k c args w)
    unfolding pin_mem2
    pin_mem2-Ends c w there h =
        pin-Ends (pinned c.mem_hpage ∷ slab c.self ∷ []) args.mem2 cntr_mem_npages w _ _ _ h
          (λ a w' h'. out_put_mem_hpage-Ends k base (record c { mem2_hpage = a.1 }) a.0 w' there h')
          (λ a w' h'.
            out_put_mem2_hpage-Ends k base (record c { mem2_hpage = a.1 }) einval w' there h')
          λ a w' h'. pin_initrd-Ends (record c { mem2_hpage = a.1 }) w' there h'

    pin_mem-Ends :
        (c : Cntr) (w : World)
        → c.self ≢ 0
        → Holds base w.log (slab c.self ∷ [])
        → Ends k base (pin_mem k c args w)
    unfolding pin_mem
    pin_mem-Ends c w there h =
        pin-Ends (slab c.self ∷ []) args.mem cntr_mem_npages w _ _ _ h
          (λ a w' h'. out_free_cntr-Ends k base (record c { mem_hpage = a.1 }) a.0 w' there h')
          (λ a w' h'.
            out_put_mem_hpage-Ends k base (record c { mem_hpage = a.1 }) einval w' there h')
          λ a w' h'. pin_mem2-Ends (record c { mem_hpage = a.1 }) w' there h'

-- Under the laws of the page allocator and the direct map (Pkm/Laws), a request that creates a
-- container ends in one of these ways. It succeeds, and what it holds on top is the container, its
-- three pinned pages, its boot table, its processors, its boot parameters, the descriptor that it
-- returns and the file, where the table and the parameters are in memory and no queue has an
-- eventfd; it fails, and holds nothing on top, or just one array of processors; or it faults, and
-- then the container, its pinned pages and its boot table stay held.
pub create_cntr-Settled : (k : Kernel) (w : World) → PageLaws k → Ends k w.log (create_cntr k w)
unfolding create_cntr
create_cntr-Settled k w laws =
    let args = (k.copy_cntr_args w.log).1 in
    let contents = k.kmalloc_contents w.log in
    if_both (Ends k w.log) (not ((k.copy_cntr_args w.log).0 == 0))
      (on_done (nothing_left refl λ r. omega arith))
      (Ensures-and_then (kmalloc_cntr k w) _
        (if_cases (Ensures (Crashed w.log) Ready) (k.kmalloc_cntr w.log == 0)
          (λ z. on_done (inl (refl, λ r. omega arith)))
          λ nz. on_done (inr ((λ z. absurd (ground (arith, nz, z))), λ r. omega arith)))
        next)
  where
    Ready : ℕ → World → Type 0
    Ready p w' = ((p ≡ 0) × Holds w.log w'.log []) ⊎ ((p ≢ 0) × Holds w.log w'.log (slab p ∷ []))

    free : (p : ℕ) (w' : World) → p ≡ 0 → Ready p w' → Holds w.log w'.log []
    free p w' z (inl (z', h)) = h
    free p w' z (inr (nz, h)) = absurd (nz z)

    there : (p : ℕ) (w' : World) → p ≢ 0 → Ready p w' → Holds w.log w'.log (slab p ∷ [])
    there p w' nz (inl (z, h)) = absurd (nz z)
    there p w' nz (inr (nz', h)) = h

    next :
        (p : ℕ) (w' : World)
        → Ready p w'
        → Ends k w.log (
            (if p == 0
                then out_fail enomem
                else pin_mem k
                    (record (k.kmalloc_contents w.log) { self = p; n_cpus = k.num_online_cpus })
                    (k.copy_cntr_args w.log).1)
              w')
    next p w' h =
        Ensures-cases (p == 0) _ _ w'
          (λ z. on_done (nothing_left refl (free p w' (ground arith) h)))
          λ nz.
            pin_mem-Ends k w.log laws (k.copy_cntr_args w.log).1
              (record (k.kmalloc_contents w.log) { self = p; n_cpus = k.num_online_cpus }) w'
              (λ z. absurd (ground (arith, z, nz)))
              (there p w' (λ z. absurd (ground (arith, z, nz))) h)
