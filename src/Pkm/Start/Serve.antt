-- ===== src/Pkm/Start/Serve.antt =====
-- What the `switch` of `pkm_cntr_ioctl_start` leaves alone: the container's identity, pages and
-- eventfds, the mutexes, and what is taken or given back.
use cki_artifact.Base.{
  ℕ, ◌-◌, ◌^◌, ◌%◌, ◌<◌, ◌≡◌, ◌⊎◌, inl, inr, Bool-cases, refl, ap, ◌∙◌, arith, Bool, true, false,
  if◌then◌else◌, ◌==◌, bit_and, bit_or, not64, u32, pos, Option, none, some, List,
}
use cki_artifact.Base.Bits.{bit_and-multiple, bit_or_fields}
use cki_artifact.Pkm.Abi.{StartArgs, exit_vring_ready, cr3_pcid_mask}
use cki_artifact.Pkm.State.{Cntr, CntrCpu, VirtioNet, pk_rkret_fast, update}
use cki_artifact.Pkm.World.{Kernel, Cmd, World, pure}
use cki_artifact.Pkm.Mmio.{unknown, mmio_write}
use cki_artifact.Pkm.Start.{
  Call, debug, check_mem, shutdown, init_late, write_cr3, nop, intr, halt, cpu_up, yield, read_mmio,
  write_mmio, print, unknown, Served, reply, leave, leave_with, waiting, serve, with_cpu, with_cr3,
  handle_rkcall_halt, after_halt, handle_rkcall_init_late,
}
use cki_artifact.Pkm.Outcome.{Ensures, on_done, Ensures-if, Ensures-and_then}
use cki_artifact.Pkm.Start.Device.{
  Wired-refl, IsSteady, AnySteady, mmio_read-Steady, mmio_write-Steady,
}
use cki_artifact.Pkm.Start.Effects.{Wired, Same}

-- The value that goes to CR3 ends in the identifier, whatever the container left there.
pub cr3-tagged :
    (cr3 pcid : ℕ) → pcid < 4096 → bit_or (bit_and cr3 (not64 cr3_pcid_mask)) pcid % 4096 ≡ pcid
cr3-tagged cr3 pcid h =
    let (d, e) = bit_and-multiple 12 cr3 (2 ^ 52 - 1) in
    omega (arith, ap (λ t. bit_or t pcid) e, bit_or_fields 12 d pcid h)

-- A container that differs in its processors and its device alone.
pub Same-of :
    (c : Cntr) (cpu : ℕ → CntrCpu) (net : VirtioNet)
    → ((j : ℕ) → (cpu j).lock ≡ (c.cpu j).lock)
    → Wired c.virtio_net net
    → Same c (record c { cpu = cpu; virtio_net = net })
Same-of c cpu net locks wires = record {
  self_same = refl;
  pcid_same = refl;
  mem_same = refl;
  mem2_same = refl;
  initrd_same = refl;
  pgtbl_same = refl;
  params_same = refl;
  cpus_same = refl;
  wired = wires;
  lock_same = locks;
}

pub with_cpu-Same :
    (c : Cntr) (i : ℕ) (f : CntrCpu → CntrCpu)
    → (f (c.cpu i)).lock ≡ (c.cpu i).lock
    → Same c (with_cpu c i f)
with_cpu-Same c i f h =
    Same-of c (update c.cpu i (f (c.cpu i))) c.virtio_net (λ j. locks j (Bool-cases (i == j)))
      (Wired-refl c.virtio_net)
  where
    locks :
        (j : ℕ)
        → ((i == j) ≡ true) ⊎ ((i == j) ≡ false)
        → ((with_cpu c i f).cpu j).lock ≡ (c.cpu j).lock
    locks j (inl e) = let same : i ≡ j = ground arith in rw e (h ∙ ap (λ t. (c.cpu t).lock) same)
    locks j (inr e) = rw e

pub Same-refl : (c : Cntr) → Same c c
Same-refl c = Same-of c c.cpu c.virtio_net (λ j. refl) (Wired-refl c.virtio_net)

abbrev cntr_of : Served → Cntr
cntr_of (reply _ c) = c
cntr_of (leave _ c) = c
cntr_of (leave_with _ _ c) = c
cntr_of (waiting c) = c

module _ (fine : ℕ → ℕ → Type 0) (base : World) where
  init_late-Steady :
      (cpu : CntrCpu) (w : World)
      → IsSteady fine base w
      → Ensures (IsSteady fine base) (AnySteady fine base) (handle_rkcall_init_late cpu w)
  unfolding handle_rkcall_init_late
  init_late-Steady cpu w t = search (Ensures-if, on_done)

  -- What the `switch` leaves: the same container, and nothing taken or given back.
  abbrev pub Serves : Cntr → Served → World → Type 0
  Serves c s w = Same c (cntr_of s) × IsSteady fine base w

  pub serve-Serves :
      (k : Kernel) (c : Cntr) (i : ℕ) (args : StartArgs) (ret : ℕ) (halts : List ℕ) (call : Call)
      (w : World)
      → IsSteady fine base w
      → Ensures (IsSteady fine base) (Serves c) (serve k c i args ret halts call w)
  unfolding serve
  serve-Serves k c i args ret halts debug w t = on_done (Same-refl c, t)
  serve-Serves k c i args ret halts check_mem w t = search (Ensures-if, on_done, Same-refl)
  serve-Serves k c i args ret halts shutdown w t = on_done (Same-refl c, t)
  serve-Serves k c i args ret halts init_late w t =
      Ensures-and_then _ _ (init_late-Steady (c.cpu i) w t) λ r _ h. on_done (fast (r == 0), h)
    where
      fast :
          (b : Bool)
          → Same c (if b then with_cpu c i (λ p. record p { pk_rkret = pk_rkret_fast }) else c)
      fast true = with_cpu-Same c i (λ p. record p { pk_rkret = pk_rkret_fast }) refl
      fast false = Same-refl c
  serve-Serves k c i args ret halts write_cr3 w t =
      on_done (with_cpu-Same c i (with_cr3 (c.cpu i).ctx.pmode.rcx) refl, t)
  serve-Serves k c i args ret halts nop w t = on_done (Same-refl c, t)
  serve-Serves k c i args ret halts intr w t = on_done (Same-refl c, t)
  serve-Serves k c i args ret halts halt w t =
      ended (handle_rkcall_halt i (c.cpu i).virtio_event_cnt halts)
    where
      ended : (o : Option ℕ) → Ensures (IsSteady fine base) (Serves c) (after_halt c i o w)
      ended none = on_done (Same-refl c, t)
      ended (some cnt) =
          on_done (with_cpu-Same c i (λ p. record p { virtio_event_cnt = cnt }) refl, t)
  serve-Serves k c i args ret halts cpu_up w t = on_done (Same-refl c, t)
  serve-Serves k c i args ret halts yield w t = on_done (Same-refl c, t)
  serve-Serves k c i args ret halts read_mmio w t =
      let regs = (c.cpu i).ctx.pmode in
      Ensures-and_then _ (λ r. pure (reply r c))
        (mmio_read-Steady fine base c.virtio_net regs.rcx (u32 regs.r8) w t)
        λ _ _ h. on_done (Same-refl c, h)
  serve-Serves k c i args ret halts write_mmio w t =
      let regs = (c.cpu i).ctx.pmode in
      Ensures-and_then (mmio_write c.virtio_net regs.rcx regs.r8 (u32 regs.r9) w)
        (λ (net, r). answer net r)
        (mmio_write-Steady fine base c.virtio_net regs.rcx regs.r8 (u32 regs.r9) w t)
        λ (net, r) w' (wires, h). search (Ensures-if, on_done, net_same net wires)
    where
      answer : VirtioNet → ℕ → Cmd Served
      answer net r =
          let c' = record c { virtio_net = net } in
          if r == 0
          then pure (reply 0 c')
          else pure (leave_with (pos exit_vring_ready) (record args { arg1 = net.queue_select }) c')

      net_same : (net : VirtioNet) → Wired c.virtio_net net → Same c (record c { virtio_net = net })
      net_same net = Same-of c c.cpu net λ j. refl
  serve-Serves k c i args ret halts print w t = on_done (Same-refl c, t)
  serve-Serves k c i args ret halts unknown w t = on_done (Same-refl c, t)
