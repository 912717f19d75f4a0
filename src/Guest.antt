-- ===== src/Guest.antt =====
-- The container's kernel at its start and at its calls: arch/x86/pkernel/pkernel.c in
-- source/cki_kernel/kernel.patch.
pub mod Boot
pub mod Events
pub mod Calls
pub mod Hooks
pub mod Late
pub mod Registers
pub mod Mapping
use cki_artifact.Base.{
  ℕ, zero, suc, ◌+◌, ◌*◌, ◌%◌, Bool, true, false, not, bit_and, bit_or, not64, ◌==◌, if◌then◌else◌,
  List, [], ◌∷◌,
}
use cki_artifact.Pkm.Abi.{boot_magic, cr3_pcid_mask, page_size}
use cki_artifact.Pkm.Rkcall
use cki_artifact.Pkm.State.{BootParams, CtxRegs, update}

-- An entry of `event_registry`.
pub record Registered : Type 0 where
  pub event : ℕ
  pub handler : ℕ
  pub arg : ℕ

-- `__pk_rkcall_fn_t` and `pk_mcall_fn_t`: the assembly routines that call the module and the monitor.
pub data RkcallFn : Type 0 where
  rkcall_slow rkcall_fast : RkcallFn

pub data McallFn : Type 0 where
  mcall_nopkru mcall_pkru : McallFn

-- The globals.
pub record Guest : Type 0 where
  pub pk_cntr_flag : Bool
  pub pcid : ℕ
  pub rk_cr3 : ℕ
  pub n_cpus : ℕ
  pub cpu0_rk_ctx : ℕ
  pub rk_ctx : ℕ  -- of the processor that runs
  pub per_cpu_init_done : Bool
  pub rkcall_fn : RkcallFn
  pub mcall_fn : McallFn
  pub event_registry : ℕ → Registered

abbrev pub max_events : ℕ
max_events = 2

-- `pk_init`
unfoldable pub pk_init : BootParams → Guest → Guest
pk_init b g =
    if not (b.pk.magic == boot_magic) then record g { pk_cntr_flag = false } else record g {
      pk_cntr_flag = true;
      pcid = b.pk.pcid;
      rk_cr3 = b.pk.rk_cr3;
      n_cpus = b.pk.n_cpus;
      cpu0_rk_ctx = b.pk.rk_ctx;
    }

-- `pk_init_per_cpu`
unfoldable pub pk_init_per_cpu : (ctx : ℕ) → Guest → Guest
pk_init_per_cpu ctx g = record g { rk_ctx = ctx }

-- The context that `pk_rkcall` names, and the value that it has for CR3.
unfoldable pub rkcall_target : Guest → ℕ × ℕ
rkcall_target g = (g.rk_cr3, if not g.per_cpu_init_done then g.cpu0_rk_ctx else g.rk_ctx)

-- `pkm_write_cr3`: the value that goes to CR3.
unfoldable pub pkm_write_cr3 : Guest → (val : ℕ) → ℕ
pkm_write_cr3 g val = bit_or (bit_and val (not64 cr3_pcid_mask)) g.pcid

-- The loop of `pk_register_event_handler`, over `n` entries from index `i` on.
unfoldable pub register_from : (n i : ℕ) → Registered → (ℕ → Registered) → ℕ → Registered
register_from zero i r registry = registry
register_from (suc n) i r registry =
    if (registry i).event == 0 then update registry i r else register_from n (i + 1) r registry

unfoldable pub pk_register_event_handler : Registered → Guest → Guest
unfolding register_from
pk_register_event_handler r g = record g {
  event_registry = register_from max_events 0 r g.event_registry;
}

-- The loop of `pk_handle_events`: the handlers that it calls, with their arguments, in order.
unfoldable pub handled_from : (n i events : ℕ) → (ℕ → Registered) → List (ℕ × ℕ)
handled_from zero i events registry = []
handled_from (suc n) i events registry =
    let rest = handled_from n (i + 1) events registry in
    if bit_and events (registry i).event == 0
    then rest
    else ((registry i).handler, (registry i).arg) ∷ rest

unfoldable pub pk_handle_events : (events : ℕ) → Guest → List (ℕ × ℕ)
unfolding handled_from
pk_handle_events events g =
    if events == 0 then [] else handled_from max_events 0 events g.event_registry

-- The arguments of `pk_rkcall`: the call's number and three more.
pub record Arguments : Type 0 where
  pub n : ℕ
  pub arg1 : ℕ
  pub arg2 : ℕ
  pub arg3 : ℕ

-- `pk_rkcall` passes them on as the third argument of `__pk_rkcall` and the ones after it, which the
-- C calling convention of x86-64 puts into these registers.
unfoldable pub pk_rkcall : Arguments → CtxRegs → CtxRegs
pk_rkcall a regs = record regs { rdx = a.n; rcx = a.arg1; r8 = a.arg2; r9 = a.arg3 }

-- `size_str2int` of the first character: `b`, `w`, `l`, `q`.
unfoldable pub size_str2int : (size : ℕ) → ℕ
size_str2int size =
    if size == 98
    then 1
    else if size == 119
    then 2
    else if size == 108
    then 4
    else if size == 113
    then 8
    else 0

-- `offset_in_page`
abbrev pub offset_in_page : ℕ → ℕ
offset_in_page addr = addr % page_size

unfoldable pub pk_mmio_read : (addr size : ℕ) → Arguments
unfolding size_str2int
pk_mmio_read addr size = record {
  n = Rkcall.mmio_read;
  arg1 = offset_in_page addr;
  arg2 = size_str2int size;
  arg3 = 0;
}

unfoldable pub pk_mmio_write : (val addr size : ℕ) → Arguments
unfolding size_str2int
pk_mmio_write val addr size = record {
  n = Rkcall.mmio_write;
  arg1 = val;
  arg2 = offset_in_page addr;
  arg3 = size_str2int size;
}
