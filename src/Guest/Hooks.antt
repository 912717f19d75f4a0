-- ===== src/Guest/Hooks.antt =====
-- The hooks that the container's kernel puts in the place of instructions: pk_init_late, and those of
-- `pv_ops` that decide something or reach the monitor, in arch/x86/pkernel/pkernel.c of
-- source/cki_kernel/kernel.patch.
use cki_artifact.Base.{
  ℕ, zero, suc, ◌+◌, Bool, not, ◌&&◌, ◌||◌, ltb, ◌==◌, if◌then◌else◌, List, [], ◌∷◌, ◌<<<◌,
}
use cki_artifact.Pkm.Rkcall
use cki_artifact.Monitor.State.{Machine, Cmd, pure, ◌>>◌}
use cki_artifact.Monitor.Pages.{sva_mmu_init, update_mapping}
use cki_artifact.Guest.{Guest, rkcall_fast, mcall_pkru, Arguments}

-- `pk_rkcall0` to `pk_rkcall2`.
abbrev pub pk_rkcall0 : ℕ → Arguments
pk_rkcall0 n = record { n = n; arg1 = 0; arg2 = 0; arg3 = 0 }

abbrev pub pk_rkcall2 : (n arg1 arg2 : ℕ) → Arguments
pk_rkcall2 n arg1 arg2 = record { n = n; arg1 = arg1; arg2 = arg2; arg3 = 0 }

abbrev pub n_warmup : ℕ
n_warmup = 10000

abbrev pub n_eval : ℕ
n_eval = 1000000

-- The loops of `eval_call_latency`: the calls of the module that one operation makes, `n` times.
unfoldable pub eval_loop : (n : ℕ) → Arguments → List Arguments
eval_loop zero a = []
eval_loop (suc n) a = a ∷ eval_loop n a

-- `pk_init_late`, with the calls of the module that it makes, whose answers it ignores. The second
-- measurement calls the monitor's `__pkm_empty_call`, which does nothing.
unfoldable pub pk_init_late : Machine → Guest → Cmd (Guest × List Arguments)
unfolding sva_mmu_init
pk_init_late m g s =
    if not g.pk_cntr_flag
    then pure (g, []) s
    else let g' = record g { rkcall_fn = rkcall_fast; mcall_fn = mcall_pkru } in
      let calls =
        pk_rkcall0 Rkcall.init_late ∷ eval_loop (n_warmup + n_eval) (pk_rkcall0 Rkcall.nop) in
      (sva_mmu_init m >> pure (g', calls)) s

-- What a hook does besides the monitor: it calls the module, or runs the instruction itself.
pub data Effect : Type 0 where
  rkcall : Arguments → Effect
  native_write_msr : (msr low high : ℕ) → Effect

-- The numbers of model-specific registers, and of the paging code: Linux's own.
pub record Linux : Type 0 where
  pub msr_fs_base : ℕ
  pub msr_gs_base : ℕ
  pub msr_kernel_gs_base : ℕ
  pub msr_cstar : ℕ
  pub msr_ia32_sysenter_cs : ℕ
  pub msr_ia32_sysenter_esp : ℕ
  pub msr_ia32_sysenter_eip : ℕ
  pub msr_ia32_xss : ℕ
  pub msr_star : ℕ
  pub msr_lstar : ℕ
  pub msr_syscall_mask : ℕ
  pub pte_pfn : ℕ → ℕ
  pub isa_end_address : ℕ

-- The tests of `pkm_write_msr`: the bases, the registers that it leaves alone, and those that must
-- already hold the value.
abbrev pub is_base : Linux → ℕ → Bool
is_base l msr = msr == l.msr_gs_base || msr == l.msr_kernel_gs_base || msr == l.msr_fs_base

abbrev pub is_ignored : Linux → ℕ → Bool
is_ignored l msr =
    msr == l.msr_cstar
    || msr == l.msr_ia32_sysenter_cs
    || msr == l.msr_ia32_sysenter_esp
    || msr == l.msr_ia32_sysenter_eip

abbrev pub is_fixed : Linux → ℕ → Bool
is_fixed l msr =
    msr == l.msr_ia32_xss || msr == l.msr_star || msr == l.msr_lstar || msr == l.msr_syscall_mask

-- The two calls with which a hook ends the container.
abbrev pub give_up : (msr : ℕ) → List Effect
give_up msr = rkcall (pk_rkcall2 Rkcall.debug 9 msr) ∷ rkcall (pk_rkcall0 Rkcall.shutdown) ∷ []

-- `pkm_write_msr`, where `native_read_msr` is what the registers hold.
unfoldable pub pkm_write_msr : Linux → (native_read_msr : ℕ → ℕ) → (msr low high : ℕ) → List Effect
pkm_write_msr l native_read_msr msr low high =
    if is_base l msr
    then native_write_msr msr low high ∷ []
    else if is_ignored l msr
    then []
    else if not (is_fixed l msr)
    then give_up msr
    else if not (native_read_msr msr == (high <<< 32) + low)
    then give_up msr
    else []

-- `pkm_set_pte`
unfoldable pub pkm_set_pte : Machine → Linux → (ptep pte : ℕ) → Cmd (Unit {0})
unfolding update_mapping
pkm_set_pte m l ptep pte =
    update_mapping m ptep
      (if not (pte == 0) && ltb (l.pte_pfn pte) l.isa_end_address then 0 else pte)
