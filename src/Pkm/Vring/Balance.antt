-- ===== src/Pkm/Vring/Balance.antt =====
-- What `pkm_cntr_ioctl_set_vring_efds` holds afterwards, on each of its ways out.
use cki_artifact.Base.{
  ℕ, ◌<◌, ◌≡◌, refl, arith, inl, inr, ◌⊎◌, true, not, ◌==◌, leb, if_both, if_cases, ℤ, pos, negsuc,
  List, [], ◌∷◌,
}
use cki_artifact.Pkm.Abi.{VringEfds, virtio_net_queue_num}
use cki_artifact.Pkm.State.{Cntr, update}
use cki_artifact.Pkm.World.{
  Kernel, World, Log, Resource, eventfd, file, acquire, release, wait_add, Run, done,
}
use cki_artifact.Pkm.Balance.{Holds, Takes}
use cki_artifact.Pkm.Vring.{
  add_waits, eventfd_ctx_fdget, eventfd_fget, out_put_kick, out_put_call, set_efds, poll_call,
  get_call, get_kick, cntr_ioctl_set_vring_efds,
}

-- The container whose queue `idx` has two eventfds and both callbacks.
abbrev pub with_efds : Cntr → (idx kick call : ℕ) → Cntr
with_efds c idx kick call =
    let net = c.virtio_net in
    let q = record (net.queues idx) { wait = true; pt = true; kick = kick; call = call } in
    record c { virtio_net = record net { queues = update net.queues idx q } }

-- An eventfd that the kernel's lookup has answered with.
abbrev pub IsFetched : Kernel → ℕ → Type 0
IsFetched k e = (log : Log) × (n : ℕ) × (k.eventfd_ctx_fdget log n ≡ pos e)

-- How the request ends over the world `base`: an error, with nothing held on top and the container
-- as it was, or success, with two eventfds held on top, which the named one of the two queues has.
pub data Handed (k : Kernel) (c : Cntr) (base : World) (r : Run (ℤ × Cntr)) : Type 0 where
  refused : (e : ℕ) (w : World) → r ≡ done (negsuc e, c) w → Takes base w [] → Handed k c base r
  handed :
      (kick call : ℕ) (w : World)
      → (k.copy_vring_efds base.log).1.idx < 2
      → IsFetched k kick
      → IsFetched k call
      → r ≡ done (pos 0, with_efds c (k.copy_vring_efds base.log).1.idx kick call) w
      → Takes base w (eventfd call ∷ eventfd kick ∷ [])
      → Handed k c base r

ℤ-cases : (z : ℤ) → ((n : ℕ) × (z ≡ pos n)) ⊎ ((n : ℕ) × (z ≡ negsuc n))
ℤ-cases (pos n) = inl (n, refl)
ℤ-cases (negsuc n) = inr (n, refl)

-- Queueing on wait-queue heads takes nothing.
add_waits-Holds :
    (heads : List ℕ) (cntr idx : ℕ) (w : World) (base : Log) (rs : List Resource)
    → Holds base w.log rs
    → (log : Log) × (add_waits heads cntr idx w ≡ done tt (record w { log = log }))
      × Holds base log rs
unfolding add_waits
add_waits-Holds [] cntr idx w base rs h = (w.log, refl, h)
add_waits-Holds (head ∷ heads) cntr idx w base rs h =
    add_waits-Holds heads cntr idx (record w { log = wait_add head cntr idx ∷ w.log }) base rs h

-- The two lookups take a reference, or return an error and change nothing.
module _ (k : Kernel) (n : ℕ) (w : World) where
  pub eventfd_fget-cases :
      ((f : ℕ) × (eventfd_fget k n w ≡ done (pos f) (record w { log = acquire (file f) ∷ w.log })))
      ⊎ ((e : ℕ) × (eventfd_fget k n w ≡ done (negsuc e) w))
  unfolding eventfd_fget
  eventfd_fget-cases = elim (ℤ-cases (k.eventfd_fget w.log n)) [
    | inl (f, h) ↦ inl (f, rw (h, eventfd_fget))
    | inr (e, h) ↦ inr (e, rw (h, eventfd_fget))
  ]

  pub eventfd_ctx_fdget-cases :
      ((f : ℕ) × IsFetched k f
        × (eventfd_ctx_fdget k n w ≡ done (pos f) (record w { log = acquire (eventfd f) ∷ w.log })))
      ⊎ ((e : ℕ) × (eventfd_ctx_fdget k n w ≡ done (negsuc e) w))
  unfolding eventfd_ctx_fdget
  eventfd_ctx_fdget-cases = elim (ℤ-cases (k.eventfd_ctx_fdget w.log n)) [
    | inl (f, h) ↦ inl (f, (w.log, n, h), rw (h, eventfd_ctx_fdget))
    | inr (e, h) ↦ inr (e, rw (h, eventfd_ctx_fdget))
  ]

module _ (k : Kernel) (c : Cntr) (base : World)
    (fits : (k.copy_vring_efds base.log).1.idx < 2) where
  abbrev efds_named : VringEfds
  efds_named = (k.copy_vring_efds base.log).1

  set_efds-Handed :
      (kick call f : ℕ) (w : World)
      → IsFetched k kick
      → IsFetched k call
      → Takes base w (file f ∷ eventfd call ∷ eventfd kick ∷ [])
      → Handed k c base (set_efds k c efds_named.idx kick call f w)
  unfolding set_efds
  set_efds-Handed kick call f w gk gc (m, p, h) =
      let (log, e, h') =
        add_waits-Holds (k.poll_heads f) c.self efds_named.idx w base.log
          (file f ∷ eventfd call ∷ eventfd kick ∷ []) h in
      rw e (
        handed kick call (record w { log = release (file f) ∷ log }) fits gk gc refl
          (m, p, λ r. omega (arith, h' r)))

  poll_call-Handed :
      (kick call : ℕ) (w : World)
      → IsFetched k kick
      → IsFetched k call
      → Takes base w (eventfd call ∷ eventfd kick ∷ [])
      → Handed k c base (poll_call k c efds_named kick call w)
  unfolding poll_call out_put_call out_put_kick
  poll_call-Handed kick call w gk gc (m, p, h) = elim (eventfd_fget-cases k efds_named.call w) [
    | inl (f, e) ↦ rw e (
        set_efds-Handed kick call f (record w { log = acquire (file f) ∷ w.log }) gk gc
          (m, p, λ r. omega (arith, h r)))
    | inr (n, e) ↦ rw e (
        refused n (record w { log = release (eventfd kick) ∷ release (eventfd call) ∷ w.log }) refl
          (m, p, λ r. omega (arith, h r)))
  ]

  get_call-Handed :
      (kick : ℕ) (w : World)
      → IsFetched k kick
      → Takes base w (eventfd kick ∷ [])
      → Handed k c base (get_call k c efds_named kick w)
  unfolding get_call out_put_kick
  get_call-Handed kick w gk (m, p, h) = elim (eventfd_ctx_fdget-cases k efds_named.call w) [
    | inl (call, gc, e) ↦ rw e (
        poll_call-Handed kick call (record w { log = acquire (eventfd call) ∷ w.log }) gk gc
          (m, p, λ r. omega (arith, h r)))
    | inr (n, e) ↦ rw e (
        refused n (record w { log = release (eventfd kick) ∷ w.log }) refl
          (m, p, λ r. omega (arith, h r)))
  ]

  get_kick-Handed : (w : World) → Takes base w [] → Handed k c base (get_kick k c efds_named w)
  unfolding get_kick
  get_kick-Handed w (m, p, h) = elim (eventfd_ctx_fdget-cases k efds_named.kick w) [
    | inl (kick, gk, e) ↦ rw e (
        get_call-Handed kick (record w { log = acquire (eventfd kick) ∷ w.log }) gk
          (m, p, λ r. omega (arith, h r)))
    | inr (n, e) ↦ rw e (refused n w refl (m, p, h))
  ]

-- Whatever the kernel's functions answer, the request to hand over eventfds returns: with an error,
-- each reference that it took given back and the container unchanged, or with 0, where the named
-- one of the two queues has two eventfds that the lookups have answered with, and just these
-- references are held on top.
pub cntr_ioctl_set_vring_efds-Handed :
    (k : Kernel) (c : Cntr) (w : World) → Handed k c w (cntr_ioctl_set_vring_efds k c w)
unfolding cntr_ioctl_set_vring_efds
cntr_ioctl_set_vring_efds-Handed k c w =
    let (left, efds) = k.copy_vring_efds w.log in
    if_both (Handed k c w) (not (left == 0)) (refused 13 w refl (refl, refl, λ r. omega arith)) (
      if_cases (Handed k c w) (leb virtio_net_queue_num efds.idx)
        (λ _. refused 21 w refl (refl, refl, λ r. omega arith))
        λ small. get_kick-Handed k c w (ground arith) w (refl, refl, λ r. omega arith))
