-- ===== src/Pkm/Vring.antt =====
-- The requests of pkm_main.c by which the launcher learns of the container's memory and rings and
-- hands over the eventfds of a queue.
pub mod Balance
pub mod Ready
use cki_artifact.Base.{ℕ, true, not, ◌==◌, leb, if◌then◌else◌, ℤ, pos, negsuc, List, [], ◌∷◌}
use cki_artifact.Pkm.Abi.{VringEfds, virtio_net_queue_num, efault, einval}
use cki_artifact.Pkm.State.{Cntr, update}
use cki_artifact.Pkm.World.{
  Kernel, eventfd, file, Reply, phys_reply, vring_reply, acquire, release, wait_add, to_user, Cmd,
  pure, ◌>>=◌, ◌>>◌, emit, done,
}
use cki_artifact.Pkm.Mmio.{queue_get_idx}

-- `virtio_ptable_queue_proc`, which a file's poll calls with its wait-queue heads.
unfoldable pub add_waits : List ℕ → (cntr idx : ℕ) → Cmd (Unit {0})
add_waits [] cntr idx = pure tt
add_waits (head ∷ heads) cntr idx = emit (wait_add head cntr idx) >> add_waits heads cntr idx

module _ (k : Kernel) where
  unfoldable pub copy_to_user : Reply → Cmd ℤ
  copy_to_user r w =
      if k.copy_to_user w.log == 0 then (emit (to_user r) >> pure (pos 0)) w else pure efault w

  unfoldable pub cntr_ioctl_get_phys_base : Cntr → Cmd ℤ
  unfolding copy_to_user
  cntr_ioctl_get_phys_base c = copy_to_user (phys_reply (k.page_to_phys c.mem_hpage))

  unfoldable pub cntr_ioctl_get_phys_base2 : Cntr → Cmd ℤ
  unfolding copy_to_user
  cntr_ioctl_get_phys_base2 c = copy_to_user (phys_reply (k.page_to_phys c.mem2_hpage))

  unfoldable pub cntr_ioctl_get_vring_info : Cntr → Cmd ℤ
  unfolding copy_to_user queue_get_idx
  cntr_ioctl_get_vring_info c w =
      let (left, args) = k.copy_vring_args w.log in
      if not (left == 0)
      then pure efault w
      else copy_to_user
          (vring_reply (record {
            idx = args.idx;
            size = queue_get_idx c.virtio_net args.idx λ q. q.size;
            desc_table = queue_get_idx c.virtio_net args.idx λ q. q.desc_table;
            avail_ring = queue_get_idx c.virtio_net args.idx λ q. q.avail_ring;
            used_ring = queue_get_idx c.virtio_net args.idx λ q. q.used_ring;
          }))
          w

  -- `eventfd_ctx_fdget` and `eventfd_fget`: a reference, or an error pointer's number.
  unfoldable pub eventfd_ctx_fdget : ℕ → Cmd ℤ
  eventfd_ctx_fdget n w = elim (k.eventfd_ctx_fdget w.log n) [
    | pos e ↦ done (pos e) (record w { log = acquire (eventfd e) ∷ w.log })
    | negsuc e ↦ done (negsuc e) w
  ]

  unfoldable pub eventfd_fget : ℕ → Cmd ℤ
  eventfd_fget n w = elim (k.eventfd_fget w.log n) [
    | pos f ↦ done (pos f) (record w { log = acquire (file f) ∷ w.log })
    | negsuc e ↦ done (negsuc e) w
  ]

  -- The labels `out_put_kick` and `out_put_call`.
  unfoldable pub out_put_kick : Cntr → (kick : ℕ) → ℤ → Cmd (ℤ × Cntr)
  out_put_kick c kick r = emit (release (eventfd kick)) >> pure (r, c)

  unfoldable pub out_put_call : Cntr → (kick call : ℕ) → ℤ → Cmd (ℤ × Cntr)
  unfolding out_put_kick
  out_put_call c kick call r = emit (release (eventfd call)) >> out_put_kick c kick r

  -- The queue's callbacks are set, the file is polled with them and given back, and the queue gets
  -- its eventfds.
  unfoldable pub set_efds : Cntr → (idx kick call call_file : ℕ) → Cmd (ℤ × Cntr)
  unfolding add_waits
  set_efds c idx kick call call_file = do
    add_waits (k.poll_heads call_file) c.self idx
    emit (release (file call_file))
    let net = c.virtio_net
    let q = record (net.queues idx) { wait = true; pt = true; kick = kick; call = call }
    pure (pos 0, record c { virtio_net = record net { queues = update net.queues idx q } })

  -- From `eventfd_fget` on, and from the second `eventfd_ctx_fdget` on.
  unfoldable pub poll_call : Cntr → VringEfds → (kick call : ℕ) → Cmd (ℤ × Cntr)
  unfolding eventfd_fget out_put_call set_efds
  poll_call c efds kick call = eventfd_fget efds.call >>= elim [
    | pos f ↦ set_efds c efds.idx kick call f
    | negsuc e ↦ out_put_call c kick call (negsuc e)
  ]

  unfoldable pub get_call : Cntr → VringEfds → (kick : ℕ) → Cmd (ℤ × Cntr)
  unfolding eventfd_ctx_fdget out_put_kick poll_call
  get_call c efds kick =
      eventfd_ctx_fdget efds.call
      >>= elim [ pos call ↦ poll_call c efds kick call | negsuc e ↦ out_put_kick c kick (negsuc e) ]

  unfoldable pub get_kick : Cntr → VringEfds → Cmd (ℤ × Cntr)
  unfolding eventfd_ctx_fdget get_call
  get_kick c efds =
      eventfd_ctx_fdget efds.kick
      >>= elim [ pos kick ↦ get_call c efds kick | negsuc e ↦ pure (negsuc e, c) ]

  unfoldable pub cntr_ioctl_set_vring_efds : Cntr → Cmd (ℤ × Cntr)
  unfolding get_kick
  cntr_ioctl_set_vring_efds c w =
      let (left, efds) = k.copy_vring_efds w.log in
      if not (left == 0)
      then pure (efault, c) w
      else if leb virtio_net_queue_num efds.idx
      then pure (einval, c) w
      else get_kick c efds w
