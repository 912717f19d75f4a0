-- ===== src/Pkm/State.antt =====
-- The structures of pkm_main.c. Pointers are addresses, and 0 is NULL.
use cki_artifact.Base.{ℕ, Bool, ◌==◌, if◌then◌else◌, List}

-- `struct pkm_virtio_queue`. `wait` and `pt` hold whether their callbacks are set.
pub record VirtioQueue : Type 0 where
  pub cntr : ℕ
  pub max_size : ℕ
  pub size : ℕ
  pub ready : Bool
  pub desc_table : ℕ
  pub avail_ring : ℕ
  pub used_ring : ℕ
  pub kick : ℕ
  pub call : ℕ
  pub wait : Bool
  pub pt : Bool

-- `struct pkm_virtio_net`. The array is a function of the index: an access past its end is then
-- visible as one at an index of 2 or more.
pub record VirtioNet : Type 0 where
  pub device_status : ℕ
  pub features_select : ℕ
  pub avail_features : ℕ
  pub acked_features_select : ℕ
  pub acked_features : ℕ
  pub queue_select : ℕ
  pub queues : ℕ → VirtioQueue

-- A write to one place of an array.
abbrev pub update {ℓ} : {A : Type ℓ} → (ℕ → A) → ℕ → A → ℕ → A
update f i v = λ j. if i == j then v else f j

-- `struct pk_ctx_regs`: the registers that the module reads or writes.
pub record CtxRegs : Type 0 where
  pub r9 : ℕ
  pub r8 : ℕ
  pub rcx : ℕ
  pub rdx : ℕ
  pub rsi : ℕ
  pub rip : ℕ
  pub rsp : ℕ
  pub cr3 : ℕ
  pub cr4 : ℕ
  pub idtr0 : ℕ
  pub idtr1 : ℕ

-- `struct pk_ctx`: the container's registers and the host's.
pub record PkCtx : Type 0 where
  pub pmode : CtxRegs
  pub rmode : CtxRegs

-- `pk_rkret_fn_t`: the assembly routine that enters the container.
pub data Rkret : Type 0 where
  null_fn pk_rkret_slow pk_rkret_fast : Rkret

-- `struct pkm_cntr_cpu`. `lock` is whether the mutex is held; `wait` is the task of the rcuwait.
pub record CntrCpu : Type 0 where
  pub ctx : PkCtx
  pub wait : ℕ
  pub lock : Bool
  pub virtio_event_cnt : ℕ
  pub task : ℕ
  pub pk_rkret : Rkret

-- `struct pkm_cntr`, at the address `self`. `cpus` is the pointer, and `cpu` the array behind it.
pub record Cntr : Type 0 where
  pub self : ℕ
  pub n_cpus : ℕ
  pub pcid : ℕ
  pub mem_hpage : ℕ
  pub mem2_hpage : ℕ
  pub initrd_hpage : ℕ
  pub boot_pgtbl : ℕ
  pub boot_params : ℕ
  pub rx_pkts : List ℕ
  pub cpus : ℕ
  pub cpu : ℕ → CntrCpu
  pub virtio_net : VirtioNet

-- An entry of the E820 memory map.
pub record E820Entry : Type 0 where
  pub addr : ℕ
  pub size : ℕ
  pub kind : ℕ

-- `struct pk_boot_params`, which stands in padding of `struct boot_params`.
pub record PkBootParams : Type 0 where
  pub n_cpus : ℕ
  pub magic : ℕ
  pub pcid : ℕ
  pub rk_cr3 : ℕ
  pub rk_ctx : ℕ

-- `struct boot_params`: the fields that the module writes.
pub record BootParams : Type 0 where
  pub cmd_line_ptr : ℕ
  pub ext_cmd_line_ptr : ℕ
  pub e820_entries : ℕ
  pub e820_table : ℕ → E820Entry
  pub orig_video_is_vga : ℕ
  pub pk : PkBootParams
