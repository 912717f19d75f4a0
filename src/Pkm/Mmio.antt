-- ===== src/Pkm/Mmio.antt =====
-- The virtio-mmio network device of a container: the queue macros, `init_virtio_net`,
-- `handle_rkcall_mmio_read` and `handle_rkcall_mmio_write` of pkm_main.c with their helpers.
pub mod Status
pub mod Negotiation
pub mod Ring
pub mod Bounds
pub mod Invariant
use cki_artifact.Base.{
  ℕ, ◌+◌, ◌^◌, Bool, true, false, not, ◌&&◌, bit_and, bit_or, ltb, ◌==◌, if◌then◌else◌, u16, u32,
  not32, ◌<<<◌, ◌>>>◌,
}
use cki_artifact.Pkm.Abi.{
  virtio_net_queue_num, virtio_net_queue_size, status_acknowledge, status_driver, status_driver_ok,
  status_features_ok, status_failed,
}
use cki_artifact.Pkm.State.{VirtioQueue, VirtioNet, update}
use cki_artifact.Pkm.World.{signal, oops, spin, Cmd, pure, ◌>>=◌, ◌>>◌, emit}

-- `virtio_queue_set_idx`: a write to a queue that is there.
unfoldable pub queue_set_idx : VirtioNet → ℕ → (VirtioQueue → VirtioQueue) → VirtioNet
queue_set_idx net idx f =
    if ltb idx virtio_net_queue_num
    then record net { queues = update net.queues idx (f (net.queues idx)) }
    else net

-- `virtio_queue_set`: a write to the queue that is selected.
unfoldable pub queue_set : VirtioNet → (VirtioQueue → VirtioQueue) → VirtioNet
unfolding queue_set_idx
queue_set net f = queue_set_idx net net.queue_select f

-- `virtio_queue_get_idx`: an attribute of a queue, or 0 where there is none.
unfoldable pub queue_get_idx : VirtioNet → ℕ → (VirtioQueue → ℕ) → ℕ
queue_get_idx net idx attr = if ltb idx virtio_net_queue_num then attr (net.queues idx) else 0

unfoldable pub queue_get : VirtioNet → (VirtioQueue → ℕ) → ℕ
unfolding queue_get_idx
queue_get net attr = queue_get_idx net net.queue_select attr

-- A `bool` read as a number, and a number stored in a `bool`.
abbrev pub of_bool : Bool → ℕ
of_bool true = 1
of_bool false = 0

abbrev pub to_bool : ℕ → Bool
to_bool n = not (n == 0)

-- Bits of the virtio specification: 24, 28, 29, 27, 32, 15 and 33, in the order of the source.
abbrev pub offered_features : ℕ
offered_features = 2 ^ 24 + 2 ^ 28 + 2 ^ 29 + 2 ^ 27 + 2 ^ 32 + 2 ^ 15 + 2 ^ 33

init_queue : ℕ → VirtioQueue → VirtioQueue
init_queue cntr q = record q {
  cntr = cntr;
  ready = false;
  max_size = virtio_net_queue_size;
  kick = 0;
  call = 0;
}

-- `init_virtio_net` for the container at the address `cntr`, over what its memory held.
unfoldable pub init_virtio_net : ℕ → VirtioNet → VirtioNet
unfolding init_queue
init_virtio_net cntr net = record net {
  device_status = 0;
  features_select = 0;
  avail_features = offered_features;
  acked_features = 0;
  queue_select = 0;
  queues =
      let first = update net.queues 0 (init_queue cntr (net.queues 0)) in
      update first 1 (init_queue cntr (first 1));
}

unfoldable pub mmio_read_avail_features : VirtioNet → ℕ
mmio_read_avail_features net =
    if net.features_select == 0
    then u32 net.avail_features
    else if net.features_select == 1
    then u32 (net.avail_features >>> 32)
    else 0

-- `handle_rkcall_mmio_read`: every other register makes the processor spin.
unfoldable pub mmio_read : VirtioNet → (offset size : ℕ) → Cmd ℕ
unfolding queue_get mmio_read_avail_features
mmio_read net offset size =
    if offset == 0x0 && size == 4
    then pure 0x74726976
    else if offset == 0x4 && size == 4
    then pure 0x2
    else if offset == 0x8 && size == 4
    then pure 0x1
    else if offset == 0xc && size == 4
    then pure 0x1af4
    else if offset == 0x70 && size == 4
    then pure net.device_status
    else if offset == 0x10 && size == 4
    then pure (mmio_read_avail_features net)
    else if offset == 0x44 && size == 4
    then pure (queue_get net λ q. of_bool q.ready)
    else if offset == 0x34 && size == 4
    then pure (queue_get net λ q. q.max_size)
    else spin

-- `handle_mmio_write_device_status`: one step of the driver's negotiation, or spinning.
unfoldable pub mmio_write_device_status : VirtioNet → ℕ → Cmd VirtioNet
mmio_write_device_status net status =
    let old = net.device_status in
    let diff = bit_and (not32 old) status in
    let next = record net { device_status = status } in
    if status == 0
    then pure net
    else if diff == status_acknowledge && old == 0
    then pure next
    else if diff == status_driver && old == status_acknowledge
    then pure next
    else if diff == status_features_ok && old == bit_or status_acknowledge status_driver
    then pure next
    else if diff == status_driver_ok
        && old == bit_or (bit_or status_acknowledge status_driver) status_features_ok
    then pure next
    else spin

-- The `switch` on the selected half of the feature bits.
unfoldable pub select_features : ℕ → ℕ → ℕ
select_features select features =
    if select == 0 then features else if select == 1 then features <<< 32 else 0

-- `handle_mmio_write_acked_features`
unfoldable pub mmio_write_acked_features : VirtioNet → ℕ → VirtioNet
unfolding select_features
mmio_write_acked_features net features =
    if bit_and net.device_status status_driver == 0
    then net
    else if not (bit_and net.device_status status_features_ok == 0)
    then net
    else if not (bit_and net.device_status status_failed == 0)
    then net
    else let acked =
        bit_and (select_features net.acked_features_select features) net.avail_features in
      record net { acked_features = bit_or net.acked_features acked }

-- `handle_mmio_write_queue_notify`: a signal on the queue's kick eventfd, which is NULL until the
-- launcher has set it.
unfoldable pub mmio_write_queue_notify : VirtioNet → ℕ → Cmd (Unit {0})
mmio_write_queue_notify net idx =
    if ltb idx virtio_net_queue_num
    then (if (net.queues idx).kick == 0 then oops else emit (signal (net.queues idx).kick))
    else pure tt

-- The halves of a 64-bit ring address.
unfoldable pub with_low : ℕ → ℕ → ℕ
with_low old val = bit_or (old >>> 32 <<< 32) val

unfoldable pub with_high : ℕ → ℕ → ℕ
with_high old val = bit_or (val <<< 32) (old <<< 32 >>> 32)

-- The registers that `handle_rkcall_mmio_write` tells apart, in the order of its tests.
pub data WriteReg : Type 0 where
  device_status features_select acked_features_select acked_features : WriteReg
  queue_select queue_size : WriteReg
  desc_low desc_high avail_low avail_high used_low used_high : WriteReg
  queue_ready queue_notify unknown : WriteReg

unfoldable pub write_reg : (offset size : ℕ) → WriteReg
write_reg offset size =
    if offset == 0x70 && size == 4
    then device_status
    else if offset == 0x14 && size == 4
    then features_select
    else if offset == 0x24 && size == 4
    then acked_features_select
    else if offset == 0x20 && size == 4
    then acked_features
    else if offset == 0x30 && size == 4
    then queue_select
    else if offset == 0x38 && size == 4
    then queue_size
    else if offset == 0x80 && size == 4
    then desc_low
    else if offset == 0x84 && size == 4
    then desc_high
    else if offset == 0x90 && size == 4
    then avail_low
    else if offset == 0x94 && size == 4
    then avail_high
    else if offset == 0xa0 && size == 4
    then used_low
    else if offset == 0xa4 && size == 4
    then used_high
    else if offset == 0x44 && size == 4
    then queue_ready
    else if offset == 0x50 && size == 4
    then queue_notify
    else unknown

abbrev set_desc : ℕ → VirtioQueue → VirtioQueue
set_desc a q = record q { desc_table = a }

abbrev set_avail : ℕ → VirtioQueue → VirtioQueue
set_avail a q = record q { avail_ring = a }

abbrev set_used : ℕ → VirtioQueue → VirtioQueue
set_used a q = record q { used_ring = a }

-- The branches of `handle_rkcall_mmio_write`: the device after the write, and `r`, of which its
-- caller only asks whether it is 0.
unfoldable pub write_to : WriteReg → VirtioNet → ℕ → Cmd (VirtioNet × ℕ)
unfolding queue_set queue_get mmio_write_device_status mmio_write_acked_features
    mmio_write_queue_notify
write_to device_status net val = do net' ← mmio_write_device_status net (u32 val); pure (net', 0)
write_to features_select net val = pure (record net { features_select = u32 val }, 0)
write_to acked_features_select net val = pure (record net { acked_features_select = u32 val }, 0)
write_to acked_features net val = pure (mmio_write_acked_features net (u32 val), 0)
write_to queue_select net val = pure (record net { queue_select = u32 val }, 0)
write_to queue_size net val = pure (queue_set net (λ q. record q { size = u16 val }), 0)
write_to desc_low net val =
    pure (queue_set net (set_desc (with_low (queue_get net λ q. q.desc_table) val)), 0)
write_to desc_high net val =
    pure (queue_set net (set_desc (with_high (queue_get net λ q. q.desc_table) val)), 0)
write_to avail_low net val =
    pure (queue_set net (set_avail (with_low (queue_get net λ q. q.avail_ring) val)), 0)
write_to avail_high net val =
    pure (queue_set net (set_avail (with_high (queue_get net λ q. q.avail_ring) val)), 0)
write_to used_low net val =
    pure (queue_set net (set_used (with_low (queue_get net λ q. q.used_ring) val)), 0)
write_to used_high net val =
    pure (queue_set net (set_used (with_high (queue_get net λ q. q.used_ring) val)), 0)
write_to queue_ready net val = pure (queue_set net (λ q. record q { ready = to_bool val }), u32 val)
write_to queue_notify net val = do mmio_write_queue_notify net (u32 val); pure (net, 0)
write_to unknown net val = spin

-- `handle_rkcall_mmio_write`
unfoldable pub mmio_write : VirtioNet → (val offset size : ℕ) → Cmd (VirtioNet × ℕ)
unfolding write_reg write_to
mmio_write net val offset size = write_to (write_reg offset size) net val
