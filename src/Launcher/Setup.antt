-- ===== src/Launcher/Setup.antt =====
-- What main.c does before the container runs: memory, the kernel's image and the initial file
-- system, the container, vhost-net; and `main`.
use Prim.Native.String.{String}
use cki_artifact.Base.{
  ℕ, zero, suc, ◌+◌, ◌==◌, Bool, true, false, ltb, if◌then◌else◌, u64, ℤ, pos, negsuc, ◌∷◌,
}
use cki_artifact.Pkm.Abi.{CntrArgs, cntr_mem_size, cntr_initrd_size}
use cki_artifact.Launcher.System.{
  Os, Call, Segment, Globals, Sys, pure, done, exited, running, overflow, ◌>>=◌, ◌>>◌, call,
  checked, is_negative, address, int_as_ulong, open_file, fopen, close, fclose, fscanf, mmap, pread,
  read, malloc, free, create_cntr, cntr_get_phys_base, cntr_get_phys_base2, vhost_set_owner,
  vhost_set_features, vhost_set_mem_table, tun_set_offload, tun_set_vnet_hdr_sz,
}
use cki_artifact.Launcher.Exits.{percpu_routine}
use cki_artifact.Launcher.Tap.{Tap, tap_open}

-- `EOF` is -1.
abbrev pub is_eof : ℤ → Bool
is_eof (pos _) = false
is_eof (negsuc e) = e == 0

-- The command line: image, segments, initrd, IP address, TAP device, command.
pub record Argv : Type 0 where
  pub image : String
  pub segments : String
  pub initrd : String
  pub ip : String
  pub tap : String
  pub subcmd : String

module _ (os : Os) where
  unfoldable pub allocate_memory : (size : ℕ) → Sys ℕ
  unfolding checked address
  allocate_memory size = do mem ← checked os (mmap size) "allocate memory"; pure (address mem)

  -- The loop over the segment file, for a number of rounds.
  unfoldable pub load_segments :
      (img_fd seg_file : ℤ) (virt_base rounds : ℕ) → Segment → Sys (Unit {0})
  unfolding int_as_ulong
  load_segments img_fd seg_file virt_base zero seg log = running log
  load_segments img_fd seg_file virt_base (suc n) seg log =
      let r = os.answer log (fscanf seg_file) in
      let log' = fscanf seg_file ∷ log in
      let seg' = os.segment log' seg in
      let c = pread img_fd (u64 (virt_base + seg'.paddr)) seg'.size seg'.base in
      let rest = load_segments img_fd seg_file virt_base n seg' (c ∷ log') in
      if is_eof r
      then done tt log'
      else if int_as_ulong (os.answer log' c) == seg'.size
      then rest
      else exited "read segment" (c ∷ log')

  -- `garbage` is what the uninitialised `seg` holds.
  unfoldable pub load_kernel_image :
      (image segments : String) (virt_base rounds : ℕ) (garbage : Segment) → Sys (Unit {0})
  unfolding checked call load_segments
  load_kernel_image image segments virt_base rounds garbage = do
    img_fd ← checked os (open_file image) "open vmlinux"
    seg_file ← checked_open segments
    load_segments img_fd seg_file virt_base rounds garbage
    call os (close img_fd)
    call os (fclose seg_file)
    pure tt
    where
      -- A stream is a pointer: NULL is the failure.
      checked_open : String → Sys ℤ
      checked_open name log =
          let file = os.answer log (fopen name) in
          if address file == 0
          then exited "open vmlinux.seg" (fopen name ∷ log)
          else done file (fopen name ∷ log)

  unfoldable pub load_initrd_image : (initrd : ℕ) (name : String) → Sys ℕ
  unfolding checked call int_as_ulong
  load_initrd_image initrd name = do
    initrd_fd ← checked os (open_file name) "open initrd"
    r ← checked os (read initrd_fd initrd cntr_initrd_size) "read initrd"
    call os (close initrd_fd)
    pure (int_as_ulong r)

  -- The TAP device and the vhost-net device, with the first memory as the one that vhost reaches.
  unfoldable pub init_vhost_net : Globals → (attempts : ℕ) (tap_name : String) → Sys Globals
  unfolding tap_open call checked is_negative address
  init_vhost_net g attempts tap_name = do
    tap ← tap_open os attempts 128 true false false (os.strncpy tap_name 128)
    opened tap
    checked os (tun_set_offload tap.fd 0x1f) "TUNSETOFFLOAD"
    checked os (tun_set_vnet_hdr_sz tap.fd 12) "TUNSETVNETHDRSZ"
    vhost ← checked os (open_file "/dev/vhost-net") "open vhost-net"
    checked os (vhost_set_owner vhost) "vhost set-owner"
    checked os (vhost_set_features vhost 0x130008000) "vhost set-features"
    allocated
    checked os (vhost_set_mem_table vhost g.phys_base cntr_mem_size g.virt_base)
        "vhost set-mem-table"
    call os free
    pure (record g { tap_fd = tap.fd; vhost_net_fd = vhost })
    where
      opened : Tap → Sys (Unit {0})
      opened tap log = if is_negative tap.fd then exited "open tap" log else done tt log

      allocated : Sys (Unit {0})
      allocated log =
          if address (os.answer log malloc) == 0
          then exited "alloc vhost-memory" (malloc ∷ log)
          else done tt (malloc ∷ log)

  -- `strcpy` into an array of 32 bytes, the closing 0 included.
  strcpy : String → Sys (Unit {0})
  strcpy s log = if ltb (os.strlen s) 32 then done tt log else overflow log

  -- The container, and where its two memories are.
  unfoldable pub make_cntr : Globals → (initrd initrd_size : ℕ) (ip subcmd : String) → Sys Globals
  unfolding checked strcpy
  make_cntr g initrd initrd_size ip subcmd = do
    dev_fd ← checked os (open_file "/dev/pkm") "open /dev/pkm"
    let args : CntrArgs = record {
      mem = g.virt_base;
      mem2 = g.virt_base2;
      initrd = initrd;
      initrd_size = initrd_size;
      ip = ip;
      subcmd = subcmd;
    }
    strcpy ip
    strcpy subcmd
    cntr_fd ← checked os (create_cntr dev_fd args) "create cntr"
    phys_base ← get (cntr_get_phys_base cntr_fd)
    phys_base2 ← get (cntr_get_phys_base2 cntr_fd)
    pure (record g { cntr_fd = cntr_fd; phys_base = phys_base; phys_base2 = phys_base2 })
    where
      -- The request's answer goes to a global.
      get : Call → Sys ℕ
      get c log = (checked os c "get phys base" >> pure (os.phys_base (c ∷ log))) log

  -- `main`, with the rounds that each of its loops may take.
  unfoldable pub main : Argv → (garbage : Segment) (segments attempts rounds : ℕ) → Sys (Unit {0})
  unfolding allocate_memory load_kernel_image load_initrd_image make_cntr init_vhost_net
      percpu_routine
  main argv garbage segments attempts rounds = do
    virt_base ← allocate_memory cntr_mem_size
    load_kernel_image argv.image argv.segments virt_base segments garbage
    virt_base2 ← allocate_memory cntr_mem_size
    initrd ← allocate_memory cntr_initrd_size
    initrd_size ← load_initrd_image initrd argv.initrd
    let g : Globals = record {
      cntr_fd = pos 0;
      vhost_net_fd = pos 0;
      tap_fd = pos 0;
      virt_base = virt_base;
      virt_base2 = virt_base2;
      phys_base = 0;
      phys_base2 = 0;
    }
    g₁ ← make_cntr g initrd initrd_size argv.ip argv.subcmd
    g₂ ← init_vhost_net g₁ attempts argv.tap
    percpu_routine os g₂ rounds (record { cpu = 0; arg1 = 0; arg2 = 0 })
