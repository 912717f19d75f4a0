-- ===== src/Pkm/World.antt =====
-- What the module shares with the rest of the kernel: the memory that it fills, a log of its calls
-- (newest first), its two globals, and the kernel functions that it calls.
use Prim.Native.String.{String}
use cki_artifact.Base.{ℕ, List, ◌∷◌, ℤ}
use cki_artifact.Pkm.Abi.{CntrArgs, StartArgs, VringArgs, VringEfds}
use cki_artifact.Pkm.State.{Cntr, BootParams, Rkret}

-- What is taken and must be given back, by address, file or number.
pub data Resource : Type 0 where
  page slab pinned eventfd file fd : ℕ → Resource

-- What a request writes back to its caller.
pub data Reply : Type 0 where
  start_reply : StartArgs → Reply
  phys_reply : ℕ → Reply
  vring_reply : VringArgs → Reply

pub data Event : Type 0 where
  acquire release : Resource → Event
  signal : ℕ → Event
  wait_add : (head cntr idx : ℕ) → Event
  wait_remove : ℕ → Event
  to_user : Reply → Event
  enter : (cntr cpu cr3 : ℕ) → Rkret → Event
  host_interrupt : ℕ → Event
  printk : List ℕ → Event
  fd_install : (n f : ℕ) → Event
  misc_register misc_deregister : Event

abbrev pub Log : Type 0
Log = List Event

pub record World : Type 0 where
  pub log : Log
  pub mem : ℕ → ℕ  -- the word at a virtual address
  pub params : ℕ → BootParams  -- the boot parameters at a virtual address
  pub text : ℕ → String  -- the string at a virtual address
  pub next_cntr_pcid : ℕ
  pub host_idt_base : ℕ

-- `oops` is a fault in the kernel, such as a read through NULL; `spin` is `while (1);`.
pub data Run (A : Type 0) : Type 0 where
  done : A → World → Run A
  oops : World → Run A
  spin : World → Run A

abbrev pub Cmd : Type 0 → Type 0
Cmd A = World → Run A

abbrev pub pure : {A : Type 0} → A → Cmd A
pure = done

module _ {A B : Type 0} where
  abbrev pub and_then : Run A → (A → Cmd B) → Run B
  and_then (done a w) f = f a w
  and_then (oops w) f = oops w
  and_then (spin w) f = spin w

  infixl 5 ◌>>=◌ ◌>>◌
  abbrev pub ◌>>=◌ : Cmd A → (A → Cmd B) → Cmd B
  m >>= f = λ w. and_then (m w) f

  abbrev pub ◌>>◌ : Cmd A → Cmd B → Cmd B
  m >> n = m >>= λ _. n

abbrev pub emit : Event → Cmd (Unit {0})
emit e w = done tt (record w { log = e ∷ w.log })

-- The functions of the kernel that the module calls. An answer may depend on all that was called
-- before, and so on the log. An address of 0 and a negative number are failures.
pub record Kernel : Type 0 where
  pub get_free_page : Log → ℕ
  pub kmalloc_cntr : Log → ℕ
  pub kcalloc_cpus : Log → ℕ
  pub kmalloc_contents : Log → Cntr  -- what the memory of a new `struct pkm_cntr` holds
  pub virt_to_phys : ℕ → ℕ
  pub phys_to_virt : ℕ → ℕ
  pub page_to_phys : ℕ → ℕ
  pub compound_nr : ℕ → ℕ
  pub read_cr3 : ℕ
  pub read_cr3_pa : ℕ
  pub read_cr4 : ℕ
  pub num_online_cpus : ℕ
  pub sizeof_cntr_cpu : ℕ  -- its mutex and rcuwait are the kernel's
  pub secondary_entry : ℕ
  pub init_top_pgt : ℕ
  pub boot_stack : ℕ
  pub host_boot_params : BootParams
  pub snprintf_cmdline : (limit initrd size : ℕ) (ip subcmd : String) → String
  pub strlcat : String → String → ℕ → String
  pub copy_cntr_args : Log → ℕ × CntrArgs  -- the bytes not copied, and the copy
  pub copy_start_args : Log → ℕ × StartArgs
  pub copy_vring_args : Log → ℕ × VringArgs
  pub copy_vring_efds : Log → ℕ × VringEfds
  pub copy_to_user : Log → ℕ  -- the bytes not copied
  pub get_user_pages : Log → ℕ → ℤ × ℕ  -- how many were pinned, and the page
  pub get_unused_fd : Log → ℤ
  pub anon_inode_getfile : Log → ℤ  -- the file, or an error pointer's number
  pub eventfd_ctx_fdget : Log → ℕ → ℤ
  pub eventfd_fget : Log → ℕ → ℤ
  pub poll_heads : ℕ → List ℕ  -- the wait-queue heads that a file's poll hands to its callback
  pub set_cpus_allowed : Log → ℤ
  pub current_task : ℕ
  pub gate_offset : ℕ → ℕ  -- the entry that the interrupt gate at an address holds
  pub store_idt : ℕ
  pub misc_register_result : ℤ
