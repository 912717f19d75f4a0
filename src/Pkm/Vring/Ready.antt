-- ===== src/Pkm/Vring/Ready.antt =====
-- The ring that the container's driver writes is the ring that the launcher is told of.
use cki_artifact.Base.{ℕ, ◌+◌, ◌*◌, ◌^◌, ◌<◌, ◌≡◌, refl, ap, ◌∙◌, eq→==, lt→ltb, pos, ◌∷◌}
use cki_artifact.Pkm.Abi.{VringArgs}
use cki_artifact.Pkm.State.{Cntr, VirtioNet}
use cki_artifact.Pkm.World.{Kernel, World, vring_reply, to_user, done, ◌>>=◌}
use cki_artifact.Pkm.Mmio.{queue_get_idx, queue_set, queue_set_idx, mmio_write}
use cki_artifact.Pkm.Mmio.Ring.{
  Ring, desc, avail, used, low_reg, high_reg, address, with_address, write_address,
}
use cki_artifact.Pkm.Vring.{cntr_ioctl_get_vring_info}

-- The address of a ring in what the launcher is told.
unfoldable pub told : Ring → VringArgs → ℕ
told desc v = v.desc_table
told avail v = v.avail_ring
told used v = v.used_ring

-- The rings of the selected queue, as the launcher is told of them.
abbrev reported : VirtioNet → (idx : ℕ) → VringArgs
reported net idx = record {
  idx = idx;
  size = queue_get_idx net idx λ q. q.size;
  desc_table = queue_get_idx net idx λ q. q.desc_table;
  avail_ring = queue_get_idx net idx λ q. q.avail_ring;
  used_ring = queue_get_idx net idx λ q. q.used_ring;
}

get_vring_info-reported :
    (k : Kernel) (c : Cntr) (w : World)
    → (k.copy_vring_args w.log).0 ≡ 0
    → k.copy_to_user w.log ≡ 0
    → cntr_ioctl_get_vring_info k c w
      ≡ done (pos 0) (record w {
        log = to_user (vring_reply (reported c.virtio_net (k.copy_vring_args w.log).1.idx)) ∷ w.log;
      })
unfolding cntr_ioctl_get_vring_info
get_vring_info-reported k c w copied free = rw (copied, free) refl

told-reported :
    (ring : Ring) (net : VirtioNet) (a : ℕ)
    → net.queue_select < 2
    → told ring (reported (queue_set net (with_address ring a)) net.queue_select) ≡ a
unfolding told with_address queue_set queue_set_idx queue_get_idx
told-reported desc net a sel =
    rw (lt→ltb net.queue_select 2 sel, eq→== net.queue_select net.queue_select refl) refl
told-reported avail net a sel =
    rw (lt→ltb net.queue_select 2 sel, eq→== net.queue_select net.queue_select refl) refl
told-reported used net a sel =
    rw (lt→ltb net.queue_select 2 sel, eq→== net.queue_select net.queue_select refl) refl

-- Where the container's driver writes the two halves of a ring's address for the selected queue,
-- and the launcher then asks for that queue, the launcher is told the address, with result 0 and
-- nothing else done. Conditions: one of the two queues is selected, the ring's old address is below
-- 2^64, each half below 2^32, and both copies from and to the launcher succeed.
pub get_vring_info-write_address :
    (k : Kernel) (c : Cntr) (ring : Ring) (lo hi : ℕ) (w : World)
    → c.virtio_net.queue_select < 2
    → address ring (c.virtio_net.queues c.virtio_net.queue_select) < 2 ^ 64
    → lo < 2 ^ 32
    → hi < 2 ^ 32
    → (k.copy_vring_args w.log).0 ≡ 0
    → (k.copy_vring_args w.log).1.idx ≡ c.virtio_net.queue_select
    → k.copy_to_user w.log ≡ 0
    → (v : VringArgs) × (((mmio_write c.virtio_net lo (low_reg ring) 4 >>= λ r.
              mmio_write r.0 hi (high_reg ring) 4)
            >>= λ r'. cntr_ioctl_get_vring_info k (record c { virtio_net = r'.0 }))
          w
        ≡ done (pos 0) (record w { log = to_user (vring_reply v) ∷ w.log }))
      × (told ring v ≡ hi * 2 ^ 32 + lo)
get_vring_info-write_address k c ring lo hi w sel fits lo_fits hi_fits copied same free =
    let set = queue_set c.virtio_net (with_address ring (hi * 2 ^ 32 + lo)) in
    let written = (write_address ring c.virtio_net lo hi w sel fits lo_fits hi_fits).0 in
    (
      reported set (k.copy_vring_args w.log).1.idx,
      rw written (get_vring_info-reported k (record c { virtio_net = set }) w copied free),
      ap (λ i. told ring (reported set i)) same
          ∙ told-reported ring c.virtio_net (hi * 2 ^ 32 + lo) sel,
    )
