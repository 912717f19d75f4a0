-- ===== src/Launcher/System.antt =====
-- What the launcher shares with the operating system: its calls, whose log (newest first) is the
-- state, and its globals. A descriptor or a result is a C number.
use Prim.Native.String.{String}
use cki_artifact.Base.{
  ℕ, ◌+◌, ◌-◌, ◌^◌, ◌%◌, Bool, true, false, ltb, if◌then◌else◌, List, ◌∷◌, ℤ, pos, negsuc,
}
use cki_artifact.Pkm.Abi.{CntrArgs, StartArgs, VringArgs}

-- `struct pkm_pkernel_segment`.
pub record Segment : Type 0 where
  pub base : ℕ
  pub size : ℕ
  pub paddr : ℕ

-- The three addresses of `struct vhost_vring_addr`; its other fields are 0.
pub record VringAddr : Type 0 where
  pub desc_user_addr : ℕ
  pub avail_user_addr : ℕ
  pub used_user_addr : ℕ

-- The calls. The first argument of a request is its descriptor.
pub data Call : Type 0 where
  open_file fopen : String → Call
  close : ℤ → Call
  fclose fscanf : ℤ → Call
  mmap : (size : ℕ) → Call
  pread : ℤ → (addr size offset : ℕ) → Call
  read : ℤ → (addr size : ℕ) → Call
  malloc free vhost_memory : Call
  eventfd : Call
  pthread_create : (cpu : ℕ) → Call
  printf : (size : ℕ) (addr : ℕ) → Call
  set_nonblock : ℤ → Call
  create_cntr : ℤ → CntrArgs → Call
  cntr_start : ℤ → StartArgs → Call
  cntr_get_phys_base cntr_get_phys_base2 : ℤ → Call
  cntr_get_vring_info : ℤ → (idx : ℕ) → Call
  cntr_set_vring_efds : ℤ → (idx : ℕ) (kick call : ℤ) → Call
  vhost_set_owner : ℤ → Call
  vhost_set_features : ℤ → ℕ → Call
  vhost_set_mem_table : ℤ → (guest_phys_addr memory_size userspace_addr : ℕ) → Call
  vhost_set_vring_num vhost_set_vring_base : ℤ → (index num : ℕ) → Call
  vhost_set_vring_addr : ℤ → (index : ℕ) → VringAddr → Call
  vhost_set_backend vhost_set_vring_kick vhost_set_vring_call : ℤ → (index : ℕ) → ℤ → Call
  tun_get_features : ℤ → Call
  tun_set_vnet_hdr_sz : ℤ → ℕ → Call
  tun_set_iff : ℤ → (flags : ℕ) → String → Call
  tun_set_offload : ℤ → ℕ → Call

abbrev pub Log : Type 0
Log = List Call

-- The operating system and the C library: the result of a call and what it writes to the caller's
-- memory depend on all that was called before. `errno` is read after the log's last call.
pub record Os : Type 0 where
  pub answer : Log → Call → ℤ
  pub errno : Log → ℕ
  pub start_args : Log → StartArgs → StartArgs
  pub phys_base : Log → ℕ
  pub vring_args : Log → VringArgs
  pub segment : Log → Segment → Segment
  pub tun_features : Log → ℕ
  pub iff_name : Log → String → String
  pub strncpy : String → ℕ → String
  pub is_empty : String → Bool
  pub strlen : String → ℕ

-- `exited` is `perror` with `exit(EXIT_FAILURE)`; `running` is a loop that has used up its rounds;
-- `overflow` is a write past the end of an array, behind which nothing is defined.
pub data Run (A : Type 0) : Type 0 where
  done : A → Log → Run A
  exited : String → Log → Run A
  running : Log → Run A
  overflow : Log → Run A

abbrev pub Sys : Type 0 → Type 0
Sys A = Log → Run A

abbrev pub pure : {A : Type 0} → A → Sys A
pure = done

module _ {A B : Type 0} where
  abbrev pub and_then : Run A → (A → Sys B) → Run B
  and_then (done a log) f = f a log
  and_then (exited s log) f = exited s log
  and_then (running log) f = running log
  and_then (overflow log) f = overflow log

  infixl 5 ◌>>=◌ ◌>>◌
  abbrev pub ◌>>=◌ : Sys A → (A → Sys B) → Sys B
  m >>= f = λ log. and_then (m log) f

  abbrev pub ◌>>◌ : Sys A → Sys B → Sys B
  m >> n = m >>= λ _. n

-- The globals. `dev_fd` is not among them: `create_cntr` shadows it.
pub record Globals : Type 0 where
  pub cntr_fd : ℤ
  pub vhost_net_fd : ℤ
  pub tap_fd : ℤ
  pub virt_base : ℕ
  pub virt_base2 : ℕ
  pub phys_base : ℕ
  pub phys_base2 : ℕ

-- `r < 0`.
unfoldable pub is_negative : ℤ → Bool
is_negative (pos n) = false
is_negative (negsuc n) = true

-- An address that is not an error's number.
unfoldable pub address : ℤ → ℕ
address (pos n) = n
address (negsuc n) = 0

-- A result that an `int` holds, converted to an `unsigned long`.
unfoldable pub int_as_ulong : ℤ → ℕ
int_as_ulong (pos n) = let m = n % 2 ^ 32 in if ltb m (2 ^ 31) then m else 2 ^ 64 - 2 ^ 32 + m
int_as_ulong (negsuc n) = 2 ^ 64 - 1 - n % 2 ^ 64

module _ (os : Os) where
  unfoldable pub call : Call → Sys ℤ
  call c log = done (os.answer log c) (c ∷ log)

  -- A call with `fatal(r < 0, info)` behind it.
  unfoldable pub checked : Call → String → Sys ℤ
  unfolding is_negative
  checked c info log =
      let r = os.answer log c in if is_negative r then exited info (c ∷ log) else done r (c ∷ log)
