-- ===== src/Pkm/Boot.antt =====
-- What a container boots with: its first page table, its boot parameters, its processors and their
-- first registers (`create_boot_pgtbl` to `free_cpus` of pkm_main.c).
mod Words
pub mod Pgtbl
pub mod Identity
pub mod Params
use Prim.Native.String.{String}
use cki_artifact.Base.{
  ℕ, zero, suc, ◌+◌, ◌*◌, Bool, true, false, bit_and, bit_or, ◌==◌, if◌then◌else◌, u32, u64, not64,
  ◌<<<◌, ◌>>>◌, ◌∷◌,
}
use cki_artifact.Pkm.Abi.{
  CntrArgs, cntr_mem_size, page_present, page_rw, page_pse, page_global, linux_boot_offset,
  boot_magic,
}
use cki_artifact.Pkm.State.{
  Cntr, CntrCpu, CtxRegs, PkCtx, Rkret, null_fn, pk_rkret_slow, BootParams, E820Entry, PkBootParams,
  update,
}
use cki_artifact.Pkm.World.{
  Kernel, World, Resource, page, slab, Event, acquire, release, oops, Cmd, pure, ◌>>=◌, ◌>>◌, emit,
  done,
}

abbrev pub modify_mem : ((ℕ → ℕ) → ℕ → ℕ) → Cmd (Unit {0})
modify_mem f w = done tt (record w { mem = f w.mem })

abbrev pub set_params : ℕ → BootParams → Cmd (Unit {0})
set_params p b w = done tt (record w { params = update w.params p b })

abbrev pub set_text : ℕ → String → Cmd (Unit {0})
set_text p s w = done tt (record w { text = update w.text p s })

-- `memcpy` of `n` words, and the loop that fills the page directory, after `n` rounds.
unfoldable pub copy_words : ℕ → (dst src : ℕ) → (ℕ → ℕ) → ℕ → ℕ
copy_words zero dst src mem = mem
copy_words (suc n) dst src mem =
    let before = copy_words n dst src mem in update before (dst + 8 * n) (before (src + 8 * n))

unfoldable pub pud_entry : ℕ → ℕ
pud_entry i = bit_or (bit_or (bit_or (bit_or page_present page_rw) page_pse) page_global) (i <<< 30)

unfoldable pub fill_pud : ℕ → ℕ → (ℕ → ℕ) → ℕ → ℕ
unfolding pud_entry
fill_pud zero pud mem = mem
fill_pud (suc n) pud mem = update (fill_pud n pud mem) (pud + 8 * n) (pud_entry n)

-- `PAGE_SIZE / sizeof(pteval_t)`.
abbrev pub entries : ℕ
entries = 512

-- The literal that `create_boot_params` appends to the command line.
abbrev pub kernel_options : String
kernel_options =
    " norandmaps nokaslr pci=off console=null acpi=off rodata=off mce=off nmi_watchdog=0 nowatchdog nosoftlockup nopcid virtio_mmio.device=1K@0x10000:48"

-- `COMMAND_LINE_SIZE`, `E820_TYPE_RESERVED`, `E820_TYPE_RAM` and `VIDEO_TYPE_EFI` of x86.
abbrev pub command_line_size : ℕ
command_line_size = 2048

abbrev pub e820_ram : ℕ
e820_ram = 1

abbrev pub e820_reserved : ℕ
e820_reserved = 2

abbrev pub video_type_efi : ℕ
video_type_efi = 0x70

-- What `kcalloc` leaves in an element.
abbrev zeroed_regs : CtxRegs
zeroed_regs = record {
  r9 = 0;
  r8 = 0;
  rcx = 0;
  rdx = 0;
  rsi = 0;
  rip = 0;
  rsp = 0;
  cr3 = 0;
  cr4 = 0;
  idtr0 = 0;
  idtr1 = 0;
}

abbrev zeroed_cpu : CntrCpu
zeroed_cpu = record {
  ctx = record { pmode = zeroed_regs; rmode = zeroed_regs };
  wait = 0;
  lock = false;
  virtio_event_cnt = 0;
  task = 0;
  pk_rkret = null_fn;
}

-- The loop of `create_cpus`, after `n` rounds.
init_cpus : ℕ → (ℕ → CntrCpu) → ℕ → CntrCpu
init_cpus zero cpu = cpu
init_cpus (suc n) cpu =
    let before = init_cpus n cpu in
    update before n
      (record (before n) { wait = 0; lock = false; virtio_event_cnt = 0; pk_rkret = pk_rkret_slow })

module _ (k : Kernel) where
  unfoldable pub get_free_page : Cmd ℕ
  get_free_page w =
      let p = k.get_free_page w.log in
      if p == 0 then done 0 w else done p (record w { log = acquire (page p) ∷ w.log })

  -- The kernel's `free_page` takes 0, and then does nothing.
  unfoldable pub free_page : ℕ → Cmd (Unit {0})
  free_page p = if p == 0 then pure tt else emit (release (page p))

  -- `create_boot_pgtbl` once both pages are there.
  set_boot_pgtbl : (pgtbl pud : ℕ) → Cmd ℕ
  set_boot_pgtbl pgtbl pud = do
    modify_mem (copy_words entries pgtbl (k.phys_to_virt k.read_cr3_pa))
    modify_mem (fill_pud entries pud)
    modify_mem λ mem. update mem pgtbl (bit_or (bit_or page_present page_rw) (k.virt_to_phys pud))
    pure pgtbl

  -- `create_boot_pgtbl`: 0 where a page is not to be had.
  unfoldable pub create_boot_pgtbl : Cmd ℕ
  unfolding get_free_page free_page set_boot_pgtbl
  create_boot_pgtbl = do
    pgtbl ← get_free_page
    if pgtbl == 0 then pure 0 else do
      pud ← get_free_page
      if pud == 0 then (free_page pgtbl >> pure 0) else set_boot_pgtbl pgtbl pud

  -- `free_boot_pgtbl` reads the first entry, and so faults at NULL.
  unfoldable pub free_boot_pgtbl : ℕ → Cmd (Unit {0})
  unfolding free_page
  free_boot_pgtbl pgtbl w =
      if pgtbl == 0
      then oops w
      else let pud = k.phys_to_virt (bit_and (w.mem pgtbl) (not64 (bit_or page_present page_rw))) in
        (free_page pud >> free_page pgtbl) w

  -- The assignments of `create_boot_params` to the new page, at `cmdline` its command line.
  unfoldable pub with_boot_params : Cntr → (cmdline : ℕ) → BootParams → BootParams
  with_boot_params c cmdline b = record b {
    cmd_line_ptr = u32 (k.virt_to_phys cmdline);
    ext_cmd_line_ptr = u32 (k.virt_to_phys cmdline >>> 32);
    e820_entries = 3;
    e820_table =
        update
          (update (update b.e820_table 0 (record { addr = 0; size = 0x1000; kind = e820_reserved }))
            1 (record { addr = k.page_to_phys c.mem_hpage; size = cntr_mem_size; kind = e820_ram }))
          2 (record { addr = k.page_to_phys c.mem2_hpage; size = cntr_mem_size; kind = e820_ram });
    orig_video_is_vga = video_type_efi;
    pk = record {
      n_cpus = c.n_cpus;
      magic = boot_magic;
      pcid = c.pcid;
      rk_cr3 = k.read_cr3;
      rk_ctx = c.cpus;
    };
  }

  set_boot_params : Cntr → CntrArgs → (boot_params cmdline : ℕ) → Cmd ℕ
  unfolding with_boot_params
  set_boot_params c args boot_params cmdline = do
    let text =
        k.snprintf_cmdline command_line_size (k.page_to_phys c.initrd_hpage) args.initrd_size
          args.ip args.subcmd
    set_text cmdline (k.strlcat text kernel_options command_line_size)
    set_params boot_params (with_boot_params c cmdline k.host_boot_params)
    pure boot_params

  -- `create_boot_params`: 0 where a page is not to be had.
  unfoldable pub create_boot_params : Cntr → CntrArgs → Cmd ℕ
  unfolding get_free_page free_page set_boot_params
  create_boot_params c args = do
    boot_params ← get_free_page
    if boot_params == 0 then pure 0 else do
      cmdline ← get_free_page
      if cmdline == 0
          then (free_page boot_params >> pure 0)
          else set_boot_params c args boot_params cmdline

  -- `free_boot_params` reads the structure, and so faults at NULL.
  unfoldable pub free_boot_params : ℕ → Cmd (Unit {0})
  unfolding free_page
  free_boot_params boot_params w =
      if boot_params == 0
      then oops w
      else let b = w.params boot_params in
        let cmdline_paddr = u64 ((b.ext_cmd_line_ptr <<< 32) + b.cmd_line_ptr) in
        (free_page (k.phys_to_virt cmdline_paddr) >> free_page boot_params) w

  -- `init_ctx` of processor `i`, whose context is the first member of the i-th element of `cpus`.
  unfoldable pub init_ctx : Cntr → ℕ → CntrCpu → (primary : Bool) → CntrCpu
  init_ctx c i cpu primary =
      let pmode = record cpu.ctx.pmode { cr4 = k.read_cr4 } in
      let boot = record pmode {
        rsi = k.virt_to_phys c.boot_params;
        rip = u64 (k.page_to_phys c.mem_hpage + linux_boot_offset);
        cr3 = k.virt_to_phys c.boot_pgtbl;
      } in
      let secondary = record pmode {
        rsi = c.cpus + i * k.sizeof_cntr_cpu;
        rip = k.secondary_entry;
        cr3 = u64 (k.page_to_phys c.mem_hpage + k.init_top_pgt);
        rsp = k.boot_stack;
      } in
      record cpu {
        ctx = record { pmode = if primary then boot else secondary; rmode = cpu.ctx.rmode };
      }

  -- The loop of `init_ctxs`, after `n` rounds.
  init_ctxs_from : Cntr → ℕ → (ℕ → CntrCpu) → ℕ → CntrCpu
  unfolding init_ctx
  init_ctxs_from c zero cpu = cpu
  init_ctxs_from c (suc n) cpu =
      let before = init_ctxs_from c n cpu in update before n (init_ctx c n (before n) (n == 0))

  unfoldable pub init_ctxs : Cntr → Cntr
  unfolding init_ctxs_from
  init_ctxs c = record c { cpu = init_ctxs_from c c.n_cpus c.cpu }

  -- `create_cpus`: the array's address, 0 where there is no memory, and the array.
  unfoldable pub create_cpus : Cntr → Cmd (ℕ × (ℕ → CntrCpu))
  unfolding init_cpus
  create_cpus c w =
      let p = k.kcalloc_cpus w.log in
      if p == 0
      then done (0, c.cpu) w
      else done (p, init_cpus c.n_cpus λ _. zeroed_cpu)
          (record w { log = acquire (slab p) ∷ w.log })

  -- `free_cpus`; the kernel's `kfree` takes NULL, and then does nothing.
  unfoldable pub free_cpus : ℕ → Cmd (Unit {0})
  free_cpus cpus = if cpus == 0 then pure tt else emit (release (slab cpus))
