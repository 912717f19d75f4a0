-- ===== src/Scenarios.antt =====
-- A small kernel, a container, a device and a launcher, for the runs of the child module.
pub mod Runs
pub mod Pages
pub mod Races
pub mod Containers
pub mod Lifetimes
pub mod Turns
pub mod Drivers
pub mod Hooks
pub mod Images
use cki_artifact.Base.{ℕ, ◌+◌, ◌*◌, ◌^◌, false, if◌then◌else◌, ◌==◌, [], ◌∷◌, pos}
use cki_artifact.Pkm.Abi.{StartArgs, VringArgs}
use cki_artifact.Pkm.State.{
  VirtioQueue, VirtioNet, CtxRegs, PkCtx, CntrCpu, Cntr, BootParams, pk_rkret_slow,
}
use cki_artifact.Pkm.World.{Kernel, World, Log}
use cki_artifact.Pkm.Mmio.{offered_features}
use cki_artifact.Pkm.Start.{Exit}
use cki_artifact.Launcher.System.{Os, Globals}

abbrev pub queue : VirtioQueue
queue = record {
  cntr = 0;
  max_size = 256;
  size = 0;
  ready = false;
  desc_table = 0;
  avail_ring = 0;
  used_ring = 0;
  kick = 0;
  call = 0;
  wait = false;
  pt = false;
}

abbrev pub device : VirtioNet
device = record {
  device_status = 0;
  features_select = 0;
  avail_features = offered_features;
  acked_features_select = 0;
  acked_features = 0;
  queue_select = 1;
  queues = λ _. queue;
}

abbrev pub regs : CtxRegs
regs = record {
  r9 = 0;
  r8 = 0;
  rcx = 0;
  rdx = 19;
  rsi = 0;
  rip = 0;
  rsp = 0;
  cr3 = 0x7fff;
  cr4 = 0;
  idtr0 = 0;
  idtr1 = 0;
}

abbrev pub context : PkCtx
context = record { pmode = regs; rmode = regs }

abbrev pub cpu : CntrCpu
cpu = record {
  ctx = context;
  wait = 0;
  lock = false;
  virtio_event_cnt = 0;
  task = 0;
  pk_rkret = pk_rkret_slow;
}

abbrev pub cntr : Cntr
cntr = record {
  self = 77;
  n_cpus = 2;
  pcid = 10;
  mem_hpage = 2 ^ 30;
  mem2_hpage = 2 * 2 ^ 30;
  initrd_hpage = 3 * 2 ^ 30;
  boot_pgtbl = 0;
  boot_params = 0;
  rx_pkts = [];
  cpus = 0;
  cpu = λ _. cpu;
  virtio_net = device;
}

abbrev pub params : BootParams
params = record {
  cmd_line_ptr = 0;
  ext_cmd_line_ptr = 0;
  e820_entries = 0;
  e820_table = λ _. record { addr = 0; size = 0; kind = 0 };
  orig_video_is_vga = 0;
  pk = record { n_cpus = 0; magic = 0; pcid = 0; rk_cr3 = 0; rk_ctx = 0 };
}

abbrev pub world : World
world = record {
  log = [];
  mem = λ _. 0;
  params = λ _. params;
  text = λ _. "";
  next_cntr_pcid = 10;
  host_idt_base = 0;
}

-- Two pages that take turns.
abbrev pub page_of : Log → ℕ
page_of [] = 4096
page_of (e ∷ log) = if page_of log == 4096 then 8192 else 4096

abbrev pub start_on_second : StartArgs
start_on_second = record { cpu = 1; arg1 = 0; arg2 = 0 }

abbrev pub no_ring : VringArgs
no_ring = record {
  idx = 0;
  size = 256;
  desc_table = 2 ^ 30;
  avail_ring = 2 ^ 30 + 4096;
  used_ring = 2 ^ 31;
}

abbrev pub kernel : Kernel
kernel = record {
  get_free_page = page_of;
  kmalloc_cntr = λ _. 77;
  kcalloc_cpus = λ _. 88;
  kmalloc_contents = λ _. cntr;
  virt_to_phys = λ a. a;
  phys_to_virt = λ a. a;
  page_to_phys = λ p. p;
  compound_nr = λ _. 262144;
  read_cr3 = 0x10000;
  read_cr3_pa = 0x10000;
  read_cr4 = 0;
  num_online_cpus = 2;
  sizeof_cntr_cpu = 1024;
  secondary_entry = 0;
  init_top_pgt = 0;
  boot_stack = 0;
  host_boot_params = params;
  snprintf_cmdline = λ _ _ _ _ _. "";
  strlcat = λ s _ _. s;
  copy_cntr_args =
      λ _. (0, record { mem = 0; mem2 = 0; initrd = 0; initrd_size = 0; ip = ""; subcmd = "" });
  copy_start_args = λ _. (0, start_on_second);
  copy_vring_args = λ _. (0, no_ring);
  copy_vring_efds = λ _. (0, record { idx = 0; kick = 5; call = 6 });
  copy_to_user = λ _. 0;
  get_user_pages = λ _ a. (pos 1, a);
  get_unused_fd = λ _. pos 3;
  anon_inode_getfile = λ _. pos 4;
  eventfd_ctx_fdget = λ _ n. pos n;
  eventfd_fget = λ _ n. pos n;
  poll_heads = λ f. f ∷ [];
  set_cpus_allowed = λ _. pos 0;
  current_task = 9;
  gate_offset = λ a. a;
  store_idt = 0;
  misc_register_result = pos 0;
}

abbrev pub yielding : Exit
yielding = record {
  ctx = context;
  mem_left = λ m. m;
  params_left = λ p. p;
  text_left = λ t. t;
  wakeups = 0;
  halt_wakeups = [];
  late_wakeups = 0;
}

abbrev pub os : Os
os = record {
  answer = λ log c. pos 3;
  errno = λ _. 0;
  start_args = λ _ a. a;
  phys_base = λ _. 2 ^ 30;
  vring_args = λ _. no_ring;
  segment = λ _ s. s;
  tun_features = λ _. 0x4000;
  iff_name = λ _ s. s;
  strncpy = λ s _. s;
  strlen = λ _. 8;
  is_empty = λ _. false;
}

abbrev pub globals : Globals
globals = record {
  cntr_fd = pos 3;
  vhost_net_fd = pos 4;
  tap_fd = pos 5;
  virt_base = 2 ^ 40;
  virt_base2 = 2 ^ 41;
  phys_base = 2 ^ 30;
  phys_base2 = 2 ^ 31;
}
