-- ===== src/Pkm/Abi.antt =====
-- source/cki_kmod/pkm.h, and the constants that the module shares with the container's kernel
-- (arch/x86/include/asm/pkernel.h in source/cki_kernel/kernel.patch).
-- An `unsigned int`, `unsigned short` or `unsigned long` is a number below its bound.
use Prim.Native.String.{String}
use cki_artifact.Base.{ℕ, ◌^◌, ◌/◌, neg, ℤ}

pub record CntrArgs : Type 0 where
  pub mem : ℕ
  pub mem2 : ℕ
  pub initrd : ℕ
  pub initrd_size : ℕ
  pub ip : String
  pub subcmd : String

pub record StartArgs : Type 0 where
  pub cpu : ℕ
  pub arg1 : ℕ
  pub arg2 : ℕ

pub record VringArgs : Type 0 where
  pub idx : ℕ
  pub size : ℕ
  pub desc_table : ℕ
  pub avail_ring : ℕ
  pub used_ring : ℕ

pub record VringEfds : Type 0 where
  pub idx : ℕ
  pub kick : ℕ
  pub call : ℕ

-- The requests of the two device files; `other` is any number that neither switch names.
pub data Request : Type 0 where
  create_cntr cntr_start get_phys_base get_phys_base2 get_vring_info set_vring_efds : Request
  other : ℕ → Request

-- `PKM_CNTR_MEM_SIZE` and `PKM_CNTR_INITRD_SIZE`.
abbrev pub cntr_mem_size : ℕ
cntr_mem_size = 2 ^ 30

abbrev pub cntr_initrd_size : ℕ
cntr_initrd_size = 2 ^ 30

-- What a start request returns when the container wants the launcher.
abbrev pub exit_cpu_up : ℕ
exit_cpu_up = 101

abbrev pub exit_vring_ready : ℕ
exit_vring_ready = 201

abbrev pub exit_print : ℕ
exit_print = 301

-- `PAGE_SIZE` of x86-64, and the module's own constants.
abbrev pub page_size : ℕ
page_size = 4096

abbrev pub cntr_mem_npages : ℕ
cntr_mem_npages = cntr_mem_size / page_size

abbrev pub cntr_initrd_npages : ℕ
cntr_initrd_npages = cntr_initrd_size / page_size

abbrev pub cntr_min_pcid : ℕ
cntr_min_pcid = 10

abbrev pub cntr_max_pcid : ℕ
cntr_max_pcid = 100

abbrev pub linux_boot_offset : ℕ
linux_boot_offset = 0x1000080

abbrev pub virtio_net_queue_num : ℕ
virtio_net_queue_num = 2

abbrev pub virtio_net_queue_size : ℕ
virtio_net_queue_size = 256

abbrev pub boot_magic : ℕ
boot_magic = 12345

-- `PK_EVENT_VIRTIO_INTR`.
abbrev pub event_virtio_intr : ℕ
event_virtio_intr = 2 ^ 2

-- Bits of a page-table entry (`PG_V`, `PG_RW`, `PG_PS`, `PG_G` in the patch).
abbrev pub page_present : ℕ
page_present = 0x001

abbrev pub page_rw : ℕ
page_rw = 0x002

abbrev pub page_pse : ℕ
page_pse = 0x080

abbrev pub page_global : ℕ
page_global = 0x100

-- `X86_CR3_PCID_MASK`: the process-context identifier is the low twelve bits of CR3.
abbrev pub cr3_pcid_mask : ℕ
cr3_pcid_mask = 0xfff

-- Device status bits of the virtio specification.
abbrev pub status_acknowledge : ℕ
status_acknowledge = 1

abbrev pub status_driver : ℕ
status_driver = 2

abbrev pub status_driver_ok : ℕ
status_driver_ok = 4

abbrev pub status_features_ok : ℕ
status_features_ok = 8

abbrev pub status_failed : ℕ
status_failed = 128

-- The error numbers that the module returns, negated as it returns them.
abbrev pub efault : ℤ
efault = neg 14

abbrev pub eagain : ℤ
eagain = neg 11

abbrev pub enomem : ℤ
enomem = neg 12

abbrev pub einval : ℤ
einval = neg 22

abbrev pub eoverflow : ℤ
eoverflow = neg 75
