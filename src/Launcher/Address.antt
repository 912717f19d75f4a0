-- ===== src/Launcher/Address.antt =====
-- The macros `phys2virt1`, `phys2virt2` and `phys2virt` of main.c: the launcher's address for a
-- physical address of the container.
use cki_artifact.Base.{
  ℕ, ◌+◌, ◌-◌, ◌^◌, ◌<◌, ◌≤◌, ◌≡◌, ◌⊎◌, inl, inr, ◌&&◌, ltb, leb, if◌then◌else◌, u64, arith,
}
use cki_artifact.Pkm.Abi.{cntr_mem_size}
use cki_artifact.Launcher.System.{Globals}

-- Differences and sums of `unsigned long` wrap at 64 bits.
abbrev phys2virt1 : Globals → ℕ → ℕ
phys2virt1 g phys = u64 (u64 phys + (2 ^ 64 - u64 g.phys_base) + g.virt_base)

abbrev phys2virt2 : Globals → ℕ → ℕ
phys2virt2 g phys = u64 (u64 phys + (2 ^ 64 - u64 g.phys_base2) + g.virt_base2)

unfoldable pub phys2virt : Globals → ℕ → ℕ
phys2virt g phys =
    if leb g.phys_base phys && ltb phys (u64 (g.phys_base + cntr_mem_size))
    then phys2virt1 g phys
    else phys2virt2 g phys

-- A gigabyte at `base` ends below 2 ^ 64.
abbrev pub Fits : (base : ℕ) → Type 0
Fits base = base + cntr_mem_size < 2 ^ 64

-- Where neither memory wraps around and the two do not overlap, `phys2virt` takes each byte of
-- either to the byte at the same offset of the launcher's mapping of it.
pub phys2virt-offset :
    (g : Globals) (offset : ℕ)
    → Fits g.phys_base
    → Fits g.phys_base2
    → Fits g.virt_base
    → Fits g.virt_base2
    → (g.phys_base + cntr_mem_size ≤ g.phys_base2) ⊎ (g.phys_base2 + cntr_mem_size ≤ g.phys_base)
    → offset < cntr_mem_size
    → (phys2virt g (g.phys_base + offset) ≡ g.virt_base + offset)
      × (phys2virt g (g.phys_base2 + offset) ≡ g.virt_base2 + offset)
unfolding phys2virt
phys2virt-offset g offset p p₂ v v₂ apart h = (first, second apart)
  where
    first : phys2virt g (g.phys_base + offset) ≡ g.virt_base + offset
    first = ground arith

    second :
        (g.phys_base + cntr_mem_size ≤ g.phys_base2) ⊎ (g.phys_base2 + cntr_mem_size ≤ g.phys_base)
        → phys2virt g (g.phys_base2 + offset) ≡ g.virt_base2 + offset
    second (inl a) = ground arith
    second (inr b) = ground arith
