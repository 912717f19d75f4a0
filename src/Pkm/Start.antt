-- ===== src/Pkm/Start.antt =====
-- `pkm_cntr_ioctl_start` of pkm_main.c: a thread of the launcher enters the container on one
-- processor and serves its calls, with `virtio_wakeup`, which other threads run meanwhile.
pub mod Effects
pub mod Device
pub mod Serve
pub mod Rounds
pub mod Entry
pub mod Wakeups
use Prim.Native.String.{String}
use cki_artifact.Base.{
  ℕ, ◌+◌, ◌*◌, ◌-◌, ◌^◌, Bool, true, false, not, ◌&&◌, ◌||◌, bit_and, bit_or, ◌==◌, leb,
  if◌then◌else◌, u32, u64, not64, ℤ, pos, negsuc, Option, none, some, List, [], ◌∷◌,
}
use cki_artifact.Pkm.Abi.{
  StartArgs, exit_cpu_up, exit_vring_ready, exit_print, event_virtio_intr, cr3_pcid_mask, efault,
  eagain, einval,
}
use cki_artifact.Pkm.Rkcall
use cki_artifact.Pkm.State.{
  BootParams, Cntr, CntrCpu, CtxRegs, PkCtx, VirtioNet, Rkret, pk_rkret_fast, update,
}
use cki_artifact.Pkm.World.{
  Kernel, World, Reply, start_reply, Event, to_user, enter, host_interrupt, printk, Cmd, pure,
  ◌>>=◌, ◌>>◌, emit, done,
}
use cki_artifact.Pkm.Mmio.{mmio_read, mmio_write}
use cki_artifact.Pkm.Memory.{mem_check}

-- What the surroundings do in one round: the context with which the container comes back, what it
-- leaves in memory, its boot table and boot parameters included, which it can write, and the calls
-- of `virtio_wakeup` while it runs, at each `yield` of a halt, and while events are taken.
pub record Exit : Type 0 where
  pub ctx : PkCtx
  pub mem_left : (ℕ → ℕ) → ℕ → ℕ
  pub params_left : (ℕ → BootParams) → ℕ → BootParams
  pub text_left : (ℕ → String) → ℕ → String
  pub wakeups : ℕ
  pub halt_wakeups : List ℕ
  pub late_wakeups : ℕ

-- `virtio_wakeup`, `n` times: the events go to processor 0. `virtio_event_cnt` is an `int`.
unfoldable pub virtio_wakeups : (i n cnt : ℕ) → ℕ
virtio_wakeups i n cnt = if i == 0 then u32 (cnt + n) else cnt

-- The calls that the `switch` tells apart.
pub data Call : Type 0 where
  debug check_mem shutdown init_late write_cr3 nop intr halt cpu_up yield : Call
  read_mmio write_mmio print unknown : Call

unfoldable pub call_of : ℕ → Call
call_of n =
    if n == Rkcall.debug
    then debug
    else if n == Rkcall.mem_check
    then check_mem
    else if n == Rkcall.shutdown
    then shutdown
    else if n == Rkcall.init_late
    then init_late
    else if n == Rkcall.write_cr3
    then write_cr3
    else if n == Rkcall.nop
    then nop
    else if n == Rkcall.intr
    then intr
    else if n == Rkcall.halt
    then halt
    else if n == Rkcall.cpu_up
    then cpu_up
    else if n == Rkcall.yield
    then yield
    else if n == Rkcall.mmio_read
    then read_mmio
    else if n == Rkcall.mmio_write
    then write_mmio
    else if n == Rkcall.print
    then print
    else unknown

-- The rest of a round after the `switch`: `ret` goes back to the container, the request leaves
-- with a result and perhaps arguments for its caller, or the thread still waits in a halt.
pub data Served : Type 0 where
  reply : (ret : ℕ) → Cntr → Served
  leave : ℤ → Cntr → Served
  leave_with : ℤ → StartArgs → Cntr → Served
  waiting : Cntr → Served

abbrev pub with_cpu : Cntr → ℕ → (CntrCpu → CntrCpu) → Cntr
with_cpu c i f = record c { cpu = update c.cpu i (f (c.cpu i)) }

abbrev pub with_cr3 : ℕ → CntrCpu → CntrCpu
with_cr3 cr3 cpu = record cpu {
  ctx = record cpu.ctx { pmode = record cpu.ctx.pmode { cr3 = cr3 } };
}

-- -1 as an `unsigned long`.
abbrev pub minus_one : ℕ
minus_one = 2 ^ 64 - 1

unfoldable pub handle_rkcall_init_late : CntrCpu → Cmd ℕ
handle_rkcall_init_late cpu =
    let p = cpu.ctx.pmode in
    let r = cpu.ctx.rmode in
    if not (p.idtr0 == r.idtr0 && p.idtr1 == r.idtr1)
    then (emit (printk []) >> pure minus_one)
    else if not (p.cr4 == r.cr4)
    then (emit (printk (p.cr4 ∷ r.cr4 ∷ [])) >> pure minus_one)
    else pure 0

-- `handle_rkcall_halt`: the count of events once there is one, or `none` while there is none.
unfoldable pub handle_rkcall_halt : (i cnt : ℕ) → List ℕ → Option ℕ
unfolding virtio_wakeups
handle_rkcall_halt i cnt [] = if cnt == 0 then none else some cnt
handle_rkcall_halt i cnt (n ∷ ns) =
    let later = handle_rkcall_halt i (virtio_wakeups i n cnt) ns in
    if cnt == 0 then later else some cnt

-- What a request has come to.
pub data Finish : Type 0 where
  running : Cntr → (ret : ℕ) → Finish
  halted : Cntr → Finish
  returned : ℤ → Cntr → Finish

-- `mutex_trylock` where the lock is free, with the assignment behind it, and `mutex_unlock`.
unfoldable pub lock : Cntr → (i task : ℕ) → Cntr
lock c i task = with_cpu c i λ p. record p { lock = true; task = task }

unfoldable pub unlock : Cntr → ℕ → Cntr
unlock c i = with_cpu c i λ p. record p { lock = false }

-- A halt that ends leaves the count that it saw; the assignment of `ret` follows.
unfoldable pub after_halt : Cntr → ℕ → Option ℕ → Cmd Served
after_halt c i none = pure (waiting c)
after_halt c i (some cnt) = pure (reply 0 (with_cpu c i λ p. record p { virtio_event_cnt = cnt }))

abbrev pub is_zero : ℤ → Bool
is_zero (pos n) = n == 0
is_zero (negsuc n) = false

module _ (k : Kernel) where
  -- The gates of the host's interrupt table are 16 bytes wide.
  unfoldable pub take_interrupt : (n arg1 : ℕ) → Cmd (Unit {0})
  take_interrupt n arg1 w =
      if n == Rkcall.intr
      then emit (host_interrupt (k.gate_offset (u64 (w.host_idt_base + arg1 * 16)))) w
      else pure tt w

  -- The `switch`, over `ret` as the last round left it.
  unfoldable pub serve :
      (c : Cntr) (i : ℕ) (args : StartArgs) (ret : ℕ) (halts : List ℕ) → Call → Cmd Served
  unfolding mem_check handle_rkcall_init_late handle_rkcall_halt after_halt mmio_read mmio_write
  serve c i args ret halts debug = do
    let regs = (c.cpu i).ctx.pmode
    emit (printk (args.cpu ∷ regs.rcx ∷ regs.r8 ∷ regs.r9 ∷ []))
    pure (reply 0 c)
  serve c i args ret halts check_mem =
      let addr = (c.cpu i).ctx.pmode.rcx in
      if mem_check k c addr
      then (emit (printk (addr ∷ [])) >> pure (reply 1 c))
      else pure (reply 0 c)
  serve c i args ret halts shutdown = pure (leave (pos 0) c)
  serve c i args ret halts init_late = do
    r ← handle_rkcall_init_late (c.cpu i)
    pure (reply r (if r == 0 then with_cpu c i (λ p. record p { pk_rkret = pk_rkret_fast }) else c))
  serve c i args ret halts write_cr3 =
      pure (reply 0 (with_cpu c i (with_cr3 (c.cpu i).ctx.pmode.rcx)))
  serve c i args ret halts nop = pure (reply 0 c)
  serve c i args ret halts intr = pure (reply ret c)
  serve c i args ret halts halt =
      after_halt c i (handle_rkcall_halt i (c.cpu i).virtio_event_cnt halts)
  serve c i args ret halts cpu_up =
      pure (leave_with (pos exit_cpu_up) (record args { arg1 = (c.cpu i).ctx.pmode.rcx }) c)
  serve c i args ret halts yield = pure (reply ret c)
  serve c i args ret halts read_mmio = do
    let regs = (c.cpu i).ctx.pmode
    r ← mmio_read c.virtio_net regs.rcx (u32 regs.r8)
    pure (reply r c)
  serve c i args ret halts write_mmio = do
    let regs = (c.cpu i).ctx.pmode
    (net, r) ← mmio_write c.virtio_net regs.rcx regs.r8 (u32 regs.r9)
    let c' = record c { virtio_net = net }
    if r == 0
        then pure (reply 0 c')
        else pure (leave_with (pos exit_vring_ready) (record args { arg1 = net.queue_select }) c')
  serve c i args ret halts print =
      let regs = (c.cpu i).ctx.pmode in
      pure (leave_with (pos exit_print) (record args { arg1 = regs.rcx; arg2 = regs.r8 }) c)
  serve c i args ret halts unknown = pure (leave einval c)

  -- What the container leaves in memory.
  abbrev leave_memory : Exit → Cmd (Unit {0})
  leave_memory ex w = pure tt (record w {
    mem = ex.mem_left w.mem;
    params = ex.params_left w.params;
    text = ex.text_left w.text;
  })

  -- From the loop's head to the `switch`: CR3 gets the container's PCID, the container runs and
  -- comes back with a new context, and an interrupt that it met is handled.
  unfoldable pub enter_cntr : (c : Cntr) (i : ℕ) → Exit → Cmd Cntr
  unfolding virtio_wakeups take_interrupt
  enter_cntr c i ex = do
    let cpu = c.cpu i
    let cr3 = bit_or (bit_and cpu.ctx.pmode.cr3 (not64 cr3_pcid_mask)) c.pcid
    emit (enter c.self i cr3 cpu.pk_rkret)
    leave_memory ex
    let cnt = virtio_wakeups i ex.wakeups cpu.virtio_event_cnt
    let c' = with_cpu c i λ p. record p { ctx = ex.ctx; virtio_event_cnt = cnt }
    take_interrupt ex.ctx.pmode.rdx ex.ctx.pmode.rcx
    pure c'

  -- The rest of the loop: a pending event is taken off the count, unless another arrives first,
  -- and the container's registers get the answer and the event.
  unfoldable pub finish_round : (c : Cntr) (i ret late : ℕ) → Cntr
  unfolding virtio_wakeups
  finish_round c i ret late =
      let count = (c.cpu i).virtio_event_cnt in
      let now = virtio_wakeups i late count in
      let left = if count == 0 then now else if now == count then count - 1 else now in
      let events = if count == 0 then 0 else event_virtio_intr in
      with_cpu c i λ p. record p {
        virtio_event_cnt = left;
        ctx = record p.ctx { pmode = record p.ctx.pmode { rsi = ret; rdx = events } };
      }

  -- `out_copy_args`
  unfoldable pub copy_args : StartArgs → ℤ → Cmd ℤ
  copy_args args r w =
      if k.copy_to_user w.log == 0
      then (emit (to_user (start_reply args)) >> pure r) w
      else pure efault w

  -- The statements behind the `switch`: the next round, `out_unlock`, or `out_copy_args`.
  unfoldable pub after_serve : (i late : ℕ) → (Cntr → ℕ → Cmd Finish) → Served → Cmd Finish
  unfolding finish_round copy_args unlock
  after_serve i late again (reply ret c) = again (finish_round c i ret late) ret
  after_serve i late again (leave r c) = pure (returned r (unlock c i))
  after_serve i late again (leave_with r out c) =
      copy_args out r >>= λ r'. pure (returned r' (unlock c i))
  after_serve i late again (waiting c) = pure (halted c)

  -- The loop, for as many rounds as the surroundings play: `running` and `halted` mean that the
  -- thread is still in the container or in a halt.
  unfoldable pub rounds : (c : Cntr) (i : ℕ) (args : StartArgs) (ret : ℕ) → List Exit → Cmd Finish
  unfolding serve call_of enter_cntr after_serve
  rounds c i args ret [] = pure (running c ret)
  rounds c i args ret (ex ∷ rest) = enter_cntr c i ex >>= λ c₁.
      serve c₁ i args ret ex.halt_wakeups (call_of ex.ctx.pmode.rdx)
      >>= after_serve i ex.late_wakeups (λ c' ret'. rounds c' i args ret' rest)

  -- `pkm_cntr_ioctl_start`. `garbage` is what the uninitialised `ret` holds.
  unfoldable pub cntr_ioctl_start : Cntr → (garbage : ℕ) → List Exit → Cmd Finish
  unfolding rounds lock unlock
  cntr_ioctl_start c garbage exits w =
      let (left, args) = k.copy_start_args w.log in
      if not (left == 0)
      then pure (returned efault c) w
      else if leb c.n_cpus args.cpu
      then pure (returned einval c) w
      else if (c.cpu args.cpu).lock
      then pure (returned eagain c) w
      else let c' = lock c args.cpu k.current_task in
        let r = k.set_cpus_allowed w.log in
        if is_zero r
        then rounds c' args.cpu args garbage exits w
        else pure (returned r (unlock c' args.cpu)) w
