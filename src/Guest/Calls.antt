-- ===== src/Guest/Calls.antt =====
-- The calls of the container's driver, and what the module makes of them.
use cki_artifact.Base.{
  ℕ, ◌+◌, ◌%◌, ◌<◌, ◌≡◌, refl, arith, ◌==◌, eq→==, true, if◌then◌else◌, pos, List,
}
use cki_artifact.Pkm.Abi.{StartArgs, exit_vring_ready}
use cki_artifact.Pkm.State.{Cntr}
use cki_artifact.Pkm.World.{Kernel, World, pure, ◌>>=◌}
use cki_artifact.Pkm.Mmio.{mmio_read, mmio_write}
use cki_artifact.Pkm.Start.{serve, call_of, reply, leave_with, with_cpu}
use cki_artifact.Guest.{Arguments, pk_rkcall, size_str2int, pk_mmio_read, pk_mmio_write}

-- The container comes back on a processor with a call.
abbrev pub calling : Cntr → (i : ℕ) → Arguments → Cntr
calling c i a =
    with_cpu c i λ p. record p { ctx = record p.ctx { pmode = pk_rkcall a p.ctx.pmode } }

module _ (k : Kernel) (c : Cntr) (i ret : ℕ) (args : StartArgs) (halts : List ℕ) (base offset : ℕ)
    (w : World) where
  -- A read or a write of four bytes that the container's driver makes at an offset of an aligned
  -- page, passed through pk_rkcall's registers and the module's switch, is the read or the write of
  -- the device's register at that offset, and the container gets the value read, or 0, or leaves
  -- for the launcher where the write made a queue ready.
  pub serve-calling :
      (val : ℕ)
      → base % 4096 ≡ 0
      → offset < 4096
      → (serve k
            (calling c i (pk_mmio_read (base + offset) 108))
            i
            args
            ret
            halts
            (call_of (pk_mmio_read (base + offset) 108).n)
            w
          ≡ (mmio_read c.virtio_net offset 4 >>= λ r.
                pure (reply r (calling c i (pk_mmio_read (base + offset) 108))))
              w)
        × (serve k
              (calling c i (pk_mmio_write val (base + offset) 108))
              i
              args
              ret
              halts
              (call_of (pk_mmio_write val (base + offset) 108).n)
              w
            ≡ (mmio_write c.virtio_net val offset 4 >>= λ (net, r).
                  let c' = record (calling c i (pk_mmio_write val (base + offset) 108)) {
                    virtio_net = net;
                  } in
                  if r == 0
                  then pure (reply 0 c')
                  else pure (
                      leave_with
                        (pos exit_vring_ready)
                        (record args { arg1 = net.queue_select })
                        c'))
                w)
  unfolding serve call_of pk_mmio_read pk_mmio_write pk_rkcall size_str2int
  serve-calling val aligned small =
      let split : (base + offset) % 4096 ≡ offset = omega arith in
      let self : (i == i) ≡ true = eq→== i i refl in (rw (self, split) refl, rw (self, split) refl)
