-- ===== src/Guest/Boot.antt =====
-- What the container's kernel finds in the boot parameters that the module wrote.
use cki_artifact.Base.{
  ℕ, ◌+◌, ◌-◌, ◌*◌, ◌/◌, ◌%◌, ◌^◌, ◌<◌, ◌≡◌, ◌≢◌, refl, sym, ap, eq→==, ◌∙◌, arith, true, false,
  not64, bit_and, bit_or,
}
use mathlib.Core.Path.{subst}
use cki_artifact.Base.Bits.{bit_or_fields}
use cki_artifact.Base.Masks.{bit_and_mask, bit_and_shifted}
use cki_artifact.Pkm.Abi.{CntrArgs, cr3_pcid_mask}
use cki_artifact.Pkm.State.{Cntr, BootParams}
use cki_artifact.Pkm.World.{Kernel, World, done}
use cki_artifact.Pkm.Boot.{create_boot_params, with_boot_params}
use cki_artifact.Pkm.Boot.Params.{
  params_page, cmdline_page, params_world, MadeParams, none_first, none_second, made,
  create_boot_params-MadeParams,
}
use cki_artifact.Monitor.Frames.{target}
use cki_artifact.Guest.{Guest, pk_init, rkcall_target, pkm_write_cr3}

-- CR3 for a table: the identifier below, and the table's frame.
cr3_fields :
    (val pcid : ℕ)
    → pcid < 4096
    → bit_or (bit_and val (not64 cr3_pcid_mask)) pcid ≡ val / 2 ^ 12 % 2 ^ 52 * 2 ^ 12 + pcid
cr3_fields val pcid h =
    let cleared : bit_and val (not64 cr3_pcid_mask) ≡ val / 2 ^ 12 % 2 ^ 52 * 2 ^ 12 = omega (
      arith,
      bit_and_shifted 12 val (2 ^ 52 - 1),
      ap (λ t. t * 2 ^ 12) (bit_and_mask 52 (val / 2 ^ 12)),
    ) in
    ap (λ t. bit_or t pcid) cleared ∙ bit_or_fields 12 (val / 2 ^ 12 % 2 ^ 52) pcid h

-- What the container's kernel knows of its container, and what its writes of CR3 become.
pub record Knows (k : Kernel) (c : Cntr) (g : Guest) : Type 0 where
  pub flag : g.pk_cntr_flag ≡ true
  pub n_cpus : g.n_cpus ≡ c.n_cpus
  pub calls_with : rkcall_target g ≡ (k.read_cr3, c.cpus)
  pub tagged : (val : ℕ) → pkm_write_cr3 g val % 4096 ≡ c.pcid
  pub framed : (val : ℕ) → target (pkm_write_cr3 g val) ≡ target val

pk_init-with_boot_params :
    (k : Kernel) (c : Cntr) (cmdline : ℕ) (b : BootParams) (g : Guest)
    → c.pcid < 4096
    → g.per_cpu_init_done ≡ false
    → Knows k c (pk_init (with_boot_params k c cmdline b) g)
unfolding pk_init with_boot_params pkm_write_cr3 rkcall_target
pk_init-with_boot_params k c cmdline b g small first = record {
  flag = refl;
  n_cpus = refl;
  calls_with = rw first refl;
  tagged = λ val. omega (arith, cr3_fields val c.pcid small);
  framed = λ val. omega (arith, cr3_fields val c.pcid small);
}

-- A kernel that starts on the boot parameters that create_boot_params wrote for a container knows
-- that it is in one, and has its number of processors; its calls of the module go with the host's
-- CR3 and the address of the contexts; each value that it then writes to CR3 ends in the
-- container's identifier in the low twelve bits and keeps the frame of the table. Conditions:
-- create_boot_params returned a page, the identifier is below 4096, and per_cpu_init_done is not
-- set, as at first.
pub pk_init-create_boot_params :
    (k : Kernel) (c : Cntr) (args : CntrArgs) (w w' : World) (p : ℕ) (g : Guest)
    → c.pcid < 4096
    → g.per_cpu_init_done ≡ false
    → create_boot_params k c args w ≡ done p w'
    → p ≢ 0
    → Knows k c (pk_init (w'.params p) g)
pk_init-create_boot_params k c args w w' p g small first e there =
    read (create_boot_params-MadeParams k c args w)
  where
    read :
        MadeParams k c args w (create_boot_params k c args w) → Knows k c (pk_init (w'.params p) g)
    read (none_first z e') = absurd (there (cc (e, e')))
    read (none_second z e') = absurd (there (cc (e, e')))
    read (made z z' e') =
        let hw : w' ≡ params_world k c args w = cc (e, e') in
        let hp : p ≡ params_page k c args w = cc (e, e') in
        let stored : w'.params p
            ≡ with_boot_params k c (cmdline_page k c args w) k.host_boot_params =
          ap (λ (x : World). x.params p) hw
          ∙ (ap (params_world k c args w).params hp
              ∙ rw (eq→== (params_page k c args w) (params_page k c args w) refl) refl) in
        subst (λ b. Knows k c (pk_init b g)) (sym stored)
          (pk_init-with_boot_params k c (cmdline_page k c args w) k.host_boot_params g small first)
