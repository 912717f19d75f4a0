-- ===== src/Pkm/Start/Device.antt =====
-- What the calls on the virtio-mmio device leave alone: the eventfds of its queues, and what is taken
-- or given back.
use cki_artifact.Base.{
  ℕ, ◌≡◌, inl, inr, Bool-cases, refl, ap, ◌∙◌, arith, if_both, ltb, ◌==◌, u16, u32,
}
use cki_artifact.Pkm.Abi.{virtio_net_queue_num}
use cki_artifact.Pkm.State.{VirtioNet, VirtioQueue}
use cki_artifact.Pkm.World.{World}
use cki_artifact.Pkm.Mmio.{
  WriteReg, device_status, features_select, acked_features_select, acked_features, queue_select,
  queue_size, desc_low, desc_high, avail_low, avail_high, used_low, used_high, queue_ready,
  queue_notify, unknown, mmio_write_device_status, mmio_write_acked_features,
  mmio_write_queue_notify, queue_get, queue_set, to_bool, with_low, with_high, write_to, write_reg,
  mmio_write, mmio_read,
}
use cki_artifact.Pkm.Start.{unknown}
use cki_artifact.Pkm.Outcome.{Ensures, on_done, on_oops, on_spin, Ensures-if, Ensures-and_then}
use cki_artifact.Pkm.Start.Effects.{Entered, Still, Wired}

pub Wired-refl : (net : VirtioNet) → Wired net net
Wired-refl net i = (refl, refl)

module _ (fine : ℕ → ℕ → Type 0) (base : World) where
  -- Every entry is fine, and since `base` nothing was taken or given back.
  abbrev pub IsSteady : World → Type 0
  IsSteady w = Entered fine w.log × Still base w

  abbrev pub AnySteady : {A : Type 0} → A → World → Type 0
  AnySteady _ w = IsSteady w

  -- A device with the eventfds of `net`.
  abbrev WiredTo : {A : Type 0} → VirtioNet → VirtioNet × A → World → Type 0
  WiredTo net (net', _) w = Wired net net' × IsSteady w

  status-Steady :
      (net : VirtioNet) (val : ℕ) (w : World)
      → IsSteady w
      → Ensures IsSteady
          (λ net' w'. Wired net net' × IsSteady w')
          (mmio_write_device_status net val w)
  unfolding mmio_write_device_status
  status-Steady net val w t =
      let same : Wired net net = Wired-refl net in
      let next : Wired net (record net { device_status = val }) = λ i. (refl, refl) in
      search (Ensures-if, on_done, on_spin) depth 9

  notify-Steady :
      (net : VirtioNet) (idx : ℕ) (w : World)
      → IsSteady w
      → Ensures IsSteady AnySteady (mmio_write_queue_notify net idx w)
  unfolding mmio_write_queue_notify
  notify-Steady net idx w t = search (Ensures-if, on_done, on_oops)

  acked-Wired : (net : VirtioNet) (val : ℕ) → Wired net (mmio_write_acked_features net val)
  unfolding mmio_write_acked_features
  acked-Wired net val = search (if_both {A = VirtioNet} (Wired net), (Wired-refl net))

  -- A ring or a size that a queue gets.
  queue_set-Wired :
      (net : VirtioNet) (f : VirtioQueue → VirtioQueue)
      → ((q : VirtioQueue) → ((f q).kick ≡ q.kick) × ((f q).call ≡ q.call))
      → Wired net (queue_set net f)
  unfolding queue_set
  queue_set-Wired net f keeps =
      let q = net.queues net.queue_select in
      if_both (Wired net) (ltb net.queue_select virtio_net_queue_num)
        (λ i. elim (Bool-cases (net.queue_select == i)) [
          | inl e ↦
              let here : net.queue_select ≡ i = ground arith in
              rw e (
                (keeps q).0 ∙ ap (λ j. (net.queues j).kick) here,
                (keeps q).1 ∙ ap (λ j. (net.queues j).call) here,
              )
          | inr e ↦ rw e (refl, refl)
        ])
        (Wired-refl net)

  write_to-Steady :
      (r : WriteReg) (net : VirtioNet) (val : ℕ) (w : World)
      → IsSteady w
      → Ensures IsSteady (WiredTo net) (write_to r net val w)
  unfolding write_to
  write_to-Steady device_status net val w t =
      Ensures-and_then _ _ (status-Steady net (u32 val) w t) λ _ _ h. on_done h
  write_to-Steady features_select net val w t = on_done ((λ i. (refl, refl)), t)
  write_to-Steady acked_features_select net val w t = on_done ((λ i. (refl, refl)), t)
  write_to-Steady acked_features net val w t = on_done (acked-Wired net (u32 val), t)
  write_to-Steady queue_select net val w t = on_done ((λ i. (refl, refl)), t)
  write_to-Steady queue_size net val w t =
      on_done (queue_set-Wired net (λ q. record q { size = u16 val }) λ q. (refl, refl), t)
  write_to-Steady desc_low net val w t = on_done (
    queue_set-Wired net
        (λ q. record q { desc_table = with_low (queue_get net λ q. q.desc_table) val })
        λ q. (refl, refl),
    t,
  )
  write_to-Steady desc_high net val w t = on_done (
    queue_set-Wired net
        (λ q. record q { desc_table = with_high (queue_get net λ q. q.desc_table) val })
        λ q. (refl, refl),
    t,
  )
  write_to-Steady avail_low net val w t = on_done (
    queue_set-Wired net
        (λ q. record q { avail_ring = with_low (queue_get net λ q. q.avail_ring) val })
        λ q. (refl, refl),
    t,
  )
  write_to-Steady avail_high net val w t = on_done (
    queue_set-Wired net
        (λ q. record q { avail_ring = with_high (queue_get net λ q. q.avail_ring) val })
        λ q. (refl, refl),
    t,
  )
  write_to-Steady used_low net val w t = on_done (
    queue_set-Wired net
        (λ q. record q { used_ring = with_low (queue_get net λ q. q.used_ring) val })
        λ q. (refl, refl),
    t,
  )
  write_to-Steady used_high net val w t = on_done (
    queue_set-Wired net
        (λ q. record q { used_ring = with_high (queue_get net λ q. q.used_ring) val })
        λ q. (refl, refl),
    t,
  )
  write_to-Steady queue_ready net val w t =
      on_done (queue_set-Wired net (λ q. record q { ready = to_bool val }) λ q. (refl, refl), t)
  write_to-Steady queue_notify net val w t =
      Ensures-and_then _ _ (notify-Steady net (u32 val) w t) λ _ _ h. on_done (Wired-refl net, h)
  write_to-Steady unknown net val w t = on_spin t

  pub mmio_write-Steady :
      (net : VirtioNet) (val offset size : ℕ) (w : World)
      → IsSteady w
      → Ensures IsSteady (WiredTo net) (mmio_write net val offset size w)
  unfolding mmio_write
  mmio_write-Steady net val offset size w t = write_to-Steady (write_reg offset size) net val w t

  pub mmio_read-Steady :
      (net : VirtioNet) (offset size : ℕ) (w : World)
      → IsSteady w
      → Ensures IsSteady AnySteady (mmio_read net offset size w)
  unfolding mmio_read
  mmio_read-Steady net offset size w t = search (Ensures-if, on_done, on_spin) depth 12
