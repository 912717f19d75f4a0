-- ===== src/Pkm/Boot/Identity.antt =====
-- What the processor finds in the page table that a container boots with.
use cki_artifact.Base.{
  ℕ, ◌+◌, ◌*◌, ◌/◌, ◌%◌, ◌<◌, ◌^◌, ◌≡◌, ◌≢◌, ap, ◌∙◌, arith, ◌==◌, if◌then◌else◌, bit_or, Option,
  none, some, ◌∷◌,
}
use cki_artifact.Pkm.World.{Kernel, World, done, page, acquire, release}
use cki_artifact.Pkm.Laws.{PageLaws}
use cki_artifact.Pkm.Boot.Pgtbl.{
  boot_mem, none_first, none_second, made, first_page, second_page, create_boot_pgtbl-MadePgtbl,
  free_boot_pgtbl_lem, PointsTo,
}
use cki_artifact.Pkm.Boot.{create_boot_pgtbl, free_boot_pgtbl, copy_words}
use cki_artifact.Pkm.Boot.Words.{fill_pud-outside, copy_words_lem}

-- How the processor translates a virtual address by the top two levels of a page table, where the
-- second holds a page of a gigabyte: bit 0 is "present" and bit 7 "page size".
abbrev pub translate : Kernel → (ℕ → ℕ) → (cr3 va : ℕ) → Option ℕ
translate k mem cr3 va =
    let top = mem (k.phys_to_virt cr3 + 8 * (va / 2 ^ 39 % 512)) in
    let entry = mem (k.phys_to_virt (top / 4096 * 4096 % 2 ^ 52) + 8 * (va / 2 ^ 30 % 512)) in
    if top % 2 == 0
    then none
    else if entry % 2 == 0
    then none
    else if entry / 128 % 2 == 0
    then none
    else some (entry / 2 ^ 30 * 2 ^ 30 % 2 ^ 52 + va % 2 ^ 30)

module _ (k : Kernel) (p q : ℕ) (mem : ℕ → ℕ) (p_low : p % 4096 ≡ 0) (q_low : q % 4096 ≡ 0)
    (apart : q ≢ p) where
  pub boot_mem-first : boot_mem k p q mem p ≡ bit_or 3 (k.virt_to_phys q)
  boot_mem-first = ground arith

  -- Every entry but the first is that of the page table that was current.
  boot_mem-copied :
      (j : ℕ)
      → 0 < j
      → j < 512
      → (k.phys_to_virt k.read_cr3_pa) % 4096 ≡ 0
      → k.phys_to_virt k.read_cr3_pa ≢ p
      → boot_mem k p q mem (p + 8 * j) ≡ mem (k.phys_to_virt k.read_cr3_pa + 8 * j)
  boot_mem-copied j lo hi aligned other = ground (
    arith,
    fill_pud-outside 512 q (copy_words 512 p (k.phys_to_virt k.read_cr3_pa) mem) (p + 8 * j),
    copy_words_lem 512 p (k.phys_to_virt k.read_cr3_pa) mem j,
  )

-- The outcome of a creation that returned a table.
module _ (k : Kernel) (laws : PageLaws k) (w w' : World) (p : ℕ)
    (returned : create_boot_pgtbl k w ≡ done p w') (there : p ≢ 0) where
  abbrev q : ℕ
  q = second_page k w

  made_world :
      (p ≡ first_page k w)
      × (q ≢ 0)
      × (w' ≡ record w {
        log = acquire (page q) ∷ acquire (page (first_page k w)) ∷ w.log;
        mem = boot_mem k (first_page k w) q w.mem;
      })
  made_world = elim (create_boot_pgtbl-MadePgtbl k w) [
    | none_first z e ↦ absurd (there (cc (e, returned)))
    | none_second nz e ↦ absurd (there (cc (e, returned)))
    | made nz nz' e ↦ (cc (e, returned), nz', cc (e, returned))
  ]

  -- Under the same laws, every entry of that table but the first is the current page table's, where the current table
  -- is an aligned page other than the new one.
  pub create_boot_pgtbl-copied :
      k.phys_to_virt k.read_cr3_pa % 4096 ≡ 0
      → k.phys_to_virt k.read_cr3_pa ≢ p
      → (j : ℕ) → 0 < j
      → j < 512
      → w'.mem (p + 8 * j) ≡ w.mem (k.phys_to_virt k.read_cr3_pa + 8 * j)
  create_boot_pgtbl-copied aligned other j lo hi =
      let (ep, nz, ew) = made_world in
      let first = first_page k w in
      let log = acquire (page first) ∷ w.log in
      rw (ap (λ (x : World). x.mem) ew, ep)
        (boot_mem-copied k first q w.mem (laws.aligned w.log) (laws.aligned log) (laws.fresh w.log)
          j lo hi aligned (rw ep at other))

  -- Under the same laws, freeing the table that was just created gives back its two pages, the last taken first.
  pub free-create_boot_pgtbl :
      free_boot_pgtbl k p w'
      ≡ done tt (record w' {
        log = release (page p) ∷ release (page q) ∷ acquire (page q) ∷ acquire (page p) ∷ w.log;
      })
  free-create_boot_pgtbl =
      let (ep, nz, ew) = made_world in
      let log = acquire (page (first_page k w)) ∷ w.log in
      let points : PointsTo k w' p q =
        ap (λ (x : World). x.mem p) ew
        ∙ (rw ep (
            boot_mem-first k (first_page k w) q w.mem (laws.aligned w.log) (laws.aligned log)
              (laws.fresh w.log))) in
      free_boot_pgtbl_lem k w' p q there nz (laws.phys_aligned log) (laws.phys_fits log)
        (laws.direct_map log) points
      ∙ ap (λ l. done tt (record w' { log = release (page p) ∷ release (page q) ∷ l }))
          (rw ep (ap (λ (x : World). x.log) ew))
