-- ===== src/Pkm/Boot/Params.antt =====
-- Making and freeing the boot parameters of a container.
use cki_artifact.Base.{
  ℕ, ◌+◌, ◌<◌, ◌^◌, ◌≡◌, ◌≢◌, refl, inl, inr, arith, ◌==◌, ◌∷◌, Bool-cases, ne→==, u32, u64, ◌<<<◌,
  ◌>>>◌,
}
use cki_artifact.Pkm.Abi.{CntrArgs}
use cki_artifact.Pkm.State.{Cntr, update}
use cki_artifact.Pkm.World.{Kernel, World, Run, done, oops, page, acquire, release}
use cki_artifact.Pkm.Boot.{
  create_boot_params, free_boot_params, with_boot_params, kernel_options, command_line_size,
}

module _ (k : Kernel) (c : Cntr) (args : CntrArgs) (w : World) where
  abbrev pub params_page : ℕ
  params_page = k.get_free_page w.log

  abbrev pub cmdline_page : ℕ
  cmdline_page = k.get_free_page (acquire (page params_page) ∷ w.log)

  abbrev pub params_world : World
  params_world = record w {
    log = acquire (page cmdline_page) ∷ acquire (page params_page) ∷ w.log;
    params = update w.params params_page (with_boot_params k c cmdline_page k.host_boot_params);
    text = update w.text cmdline_page (
        k.strlcat
          (k.snprintf_cmdline command_line_size (k.page_to_phys c.initrd_hpage) args.initrd_size
            args.ip args.subcmd)
          kernel_options command_line_size);
  }

  -- The outcomes of `create_boot_params`, by which pages are to be had.
  pub data MadeParams (r : Run ℕ) : Type 0 where
    none_first : params_page ≡ 0 → r ≡ done 0 w → MadeParams r
    none_second :
        params_page ≢ 0
        → r
          ≡ done 0
              (record w { log = release (page params_page) ∷ acquire (page params_page) ∷ w.log })
        → MadeParams r
    made : params_page ≢ 0 → cmdline_page ≢ 0 → r ≡ done params_page params_world → MadeParams r

  pub create_boot_params-MadeParams : MadeParams (create_boot_params k c args w)
  unfolding create_boot_params
  create_boot_params-MadeParams = elim (Bool-cases (params_page == 0)) [
    | inl z ↦ none_first (ground arith) (rw (z, create_boot_params))
    | inr nz ↦ elim (Bool-cases (cmdline_page == 0)) [
      | inl z' ↦ none_second (ground arith) (rw (nz, nz, z', create_boot_params))
      | inr nz' ↦ made (ground arith) (ground arith) (rw (nz, nz, nz', nz', create_boot_params))
    ]
  ]

-- A physical address in two halves of 32 bits, and put together again.
halves_lem : (phys : ℕ) → phys < 2 ^ 64 → u64 ((u32 (phys >>> 32) <<< 32) + u32 phys) ≡ phys
halves_lem phys h = omega arith

pub free_boot_params_lem :
    (k : Kernel) (c : Cntr) (w : World) (p q : ℕ)
    → p ≢ 0
    → q ≢ 0
    → k.virt_to_phys q < 2 ^ 64
    → k.phys_to_virt (k.virt_to_phys q) ≡ q
    → w.params p ≡ with_boot_params k c q k.host_boot_params
    → free_boot_params k p w
      ≡ done tt (record w { log = release (page p) ∷ release (page q) ∷ w.log })
unfolding free_boot_params with_boot_params
free_boot_params_lem k c w p q hp hq fits direct e =
    rw (ne→== p 0 hp, e, halves_lem (k.virt_to_phys q) fits, direct, ne→== q 0 hq, free_boot_params)

-- At NULL it faults.
pub free_boot_params-null : (k : Kernel) (w : World) → free_boot_params k 0 w ≡ oops w
unfolding free_boot_params
free_boot_params-null k w = refl
