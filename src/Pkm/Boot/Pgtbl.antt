-- ===== src/Pkm/Boot/Pgtbl.antt =====
-- Making and freeing the page table that a container boots with.
use cki_artifact.Base.{
  ℕ, ◌+◌, ◌*◌, ◌/◌, ◌%◌, ◌<◌, ◌^◌, ◌≡◌, ◌≢◌, inl, inr, ◌∙◌, arith, ◌==◌, bit_or, bit_and, not64,
  ◌∷◌, Bool-cases, ne→==,
}
use cki_artifact.Base.Bits.{
  bit_or_fields, bit_or_comm, bit_and-add_complement, bit_and_low_mask, bit_and_comm,
}
use cki_artifact.Pkm.State.{update}
use cki_artifact.Pkm.World.{Kernel, World, Run, done, page, acquire, release}
use cki_artifact.Pkm.Boot.{create_boot_pgtbl, free_boot_pgtbl, copy_words, fill_pud}

-- The memory after the three writes of `create_boot_pgtbl`.
abbrev pub boot_mem : Kernel → (pgtbl pud : ℕ) → (ℕ → ℕ) → ℕ → ℕ
boot_mem k pgtbl pud mem =
    update (fill_pud 512 pud (copy_words 512 pgtbl (k.phys_to_virt k.read_cr3_pa) mem)) pgtbl
      (bit_or 3 (k.virt_to_phys pud))

-- The outcomes of `create_boot_pgtbl`, by which pages are to be had.
pub data MadePgtbl (k : Kernel) (w : World) (p q : ℕ) (r : Run ℕ) : Type 0 where
  none_first : p ≡ 0 → r ≡ done 0 w → MadePgtbl k w p q r
  none_second :
      p ≢ 0
      → r ≡ done 0 (record w { log = release (page p) ∷ acquire (page p) ∷ w.log })
      → MadePgtbl k w p q r
  made :
      p ≢ 0
      → q ≢ 0
      → r
        ≡ done p (record w {
          log = acquire (page q) ∷ acquire (page p) ∷ w.log;
          mem = boot_mem k p q w.mem;
        })
      → MadePgtbl k w p q r

module _ (k : Kernel) (w : World) where
  abbrev pub first_page : ℕ
  first_page = k.get_free_page w.log

  abbrev pub second_page : ℕ
  second_page = k.get_free_page (acquire (page first_page) ∷ w.log)

  pub create_boot_pgtbl-MadePgtbl : MadePgtbl k w first_page second_page (create_boot_pgtbl k w)
  unfolding create_boot_pgtbl
  create_boot_pgtbl-MadePgtbl = elim (Bool-cases (first_page == 0)) [
    | inl z ↦ none_first (ground arith) (rw (z, create_boot_pgtbl))
    | inr nz ↦ elim (Bool-cases (second_page == 0)) [
      | inl z' ↦ none_second (ground arith) (rw (nz, nz, z', create_boot_pgtbl))
      | inr nz' ↦ made (ground arith) (ground arith) (rw (nz, nz, nz', nz', create_boot_pgtbl))
    ]
  ]

-- An aligned physical address under the flags "present" and "writable", and without them again.
module _ (phys : ℕ) (low : phys % 4096 ≡ 0) (fits : phys < 2 ^ 52) where
  pub flags_set : bit_or 3 phys ≡ phys + 3
  flags_set =
      let whole : phys / 4096 * 2 ^ 12 ≡ phys = omega arith in
      bit_or_comm 64 3 phys (omega arith) (omega arith)
      ∙ (rw whole at (bit_or_fields 12 (phys / 4096) 3 (omega arith)))

  flags_cleared : bit_and (bit_or 3 phys) (not64 3) ≡ phys
  flags_cleared =
      let parts = bit_and-add_complement 64 3 (phys + 3) (omega arith) (omega arith) in
      let comm = bit_and_comm 64 (phys + 3) (not64 3) (omega arith) (omega arith) in
      rw flags_set (omega (arith, parts, comm, bit_and_low_mask 2 (phys + 3)))

-- The boot table as `create_boot_pgtbl` leaves it, and as all that comes later leaves its first
-- entry.
abbrev pub PointsTo : Kernel → World → (pgtbl pud : ℕ) → Type 0
PointsTo k w pgtbl pud = w.mem pgtbl ≡ bit_or 3 (k.virt_to_phys pud)

pub free_boot_pgtbl_lem :
    (k : Kernel) (w : World) (p q : ℕ)
    → p ≢ 0
    → q ≢ 0
    → k.virt_to_phys q % 4096 ≡ 0
    → k.virt_to_phys q < 2 ^ 52
    → k.phys_to_virt (k.virt_to_phys q) ≡ q
    → PointsTo k w p q
    → free_boot_pgtbl k p w
      ≡ done tt (record w { log = release (page p) ∷ release (page q) ∷ w.log })
unfolding free_boot_pgtbl
free_boot_pgtbl_lem k w p q hp hq low fits direct e = rw (
  ne→== p 0 hp,
  e,
  flags_cleared (k.virt_to_phys q) low fits,
  direct,
  ne→== q 0 hq,
  free_boot_pgtbl,
)
