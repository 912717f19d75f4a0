-- ===== src/Pkm/Memory.antt =====
-- `mem_check` of pkm_main.c: whether a physical address lies outside the container's memory.
use cki_artifact.Base.{
  ℕ, ◌+◌, ◌-◌, ◌<◌, ◌^◌, ◌≡◌, ◌↔◌, ◌⊎◌, Bool, true, false, ◌&&◌, arith, ltb, leb, if◌then◌else◌,
  u64, inl, inr, refl,
}
use cki_artifact.Pkm.Abi.{cntr_mem_size, cntr_initrd_size}
use cki_artifact.Pkm.State.{Cntr}
use cki_artifact.Pkm.World.{Kernel}

-- Three tests in a row pass together exactly when one of them does.
any_of_three :
    (a b c : Bool)
    → ((if a then false else if b then false else if c then false else true) ≡ false)
      ↔ ((a ≡ true) ⊎ (b ≡ true) ⊎ (c ≡ true))
any_of_three true b c = (λ _. inl refl, λ _. refl)
any_of_three false true c = (λ _. inr (inl refl), λ _. refl)
any_of_three false false true = (λ _. inr (inr refl), λ _. refl)
any_of_three false false false = (λ e. cc, λ t. ground arith)

module _ (k : Kernel) where
  -- One test of an `if`: the end of the region is computed on 64 bits.
  in_region : (base size paddr : ℕ) → Bool
  in_region base size paddr = leb base paddr && ltb paddr (u64 (base + size))

  unfoldable pub mem_check : Cntr → ℕ → Bool
  unfolding in_region
  mem_check c paddr =
      if in_region (k.page_to_phys c.mem_hpage) cntr_mem_size paddr
      then false
      else if in_region (k.page_to_phys c.mem2_hpage) cntr_mem_size paddr
      then false
      else if in_region (k.page_to_phys c.initrd_hpage) cntr_initrd_size paddr
      then false
      else true

  -- The address is a byte of the gigabyte at `page`.
  abbrev pub IsInPage : (page paddr : ℕ) → Type 0
  IsInPage page paddr = (off : ℕ) × (off < 2 ^ 30) × (paddr ≡ k.page_to_phys page + off)

  in_region-IsInPage :
      (page paddr : ℕ)
      → k.page_to_phys page + 2 ^ 30 < 2 ^ 64
      → in_region (k.page_to_phys page) cntr_mem_size paddr ≡ true
      → IsInPage page paddr
  unfolding in_region
  in_region-IsInPage page paddr h t =
      let base = k.page_to_phys page in (paddr - base, ground arith, ground arith)

  IsInPage-in_region :
      (page paddr : ℕ)
      → k.page_to_phys page + 2 ^ 30 < 2 ^ 64
      → IsInPage page paddr
      → in_region (k.page_to_phys page) cntr_mem_size paddr ≡ true
  unfolding in_region
  IsInPage-in_region page paddr h (off, lt, e) = ground arith

  -- Where the three pages end below 2^64, `mem_check` answers false exactly for the addresses that
  -- are a byte of one of the three.
  pub mem_check-IsInPage :
      (c : Cntr) (paddr : ℕ)
      → k.page_to_phys c.mem_hpage + 2 ^ 30 < 2 ^ 64
      → k.page_to_phys c.mem2_hpage + 2 ^ 30 < 2 ^ 64
      → k.page_to_phys c.initrd_hpage + 2 ^ 30 < 2 ^ 64
      → (mem_check c paddr ≡ false)
        ↔ (IsInPage c.mem_hpage paddr ⊎ IsInPage c.mem2_hpage paddr ⊎ IsInPage c.initrd_hpage paddr)
  unfolding mem_check
  mem_check-IsInPage c paddr h₁ h₂ h₃ = (
    λ e. elim ((any_of_three _ _ _).0 e) [
      | inl t ↦ inl (in_region-IsInPage c.mem_hpage paddr h₁ t)
      | inr (inl t) ↦ inr (inl (in_region-IsInPage c.mem2_hpage paddr h₂ t))
      | inr (inr t) ↦ inr (inr (in_region-IsInPage c.initrd_hpage paddr h₃ t))
    ],
    λ p. (any_of_three _ _ _).1 (elim p [
      | inl q ↦ inl (IsInPage-in_region c.mem_hpage paddr h₁ q)
      | inr (inl q) ↦ inr (inl (IsInPage-in_region c.mem2_hpage paddr h₂ q))
      | inr (inr q) ↦ inr (inr (IsInPage-in_region c.initrd_hpage paddr h₃ q))
    ]),
  )
