-- ===== src/Pkm/Lifetime/Signals.antt =====
-- The notifications of a queue whose eventfds the launcher has handed over.
use cki_artifact.Base.{
  ℕ, List, ◌∷◌, ◌<◌, ◌≡◌, ◌≢◌, refl, inl, inr, Bool-cases, ◌==◌, lt→ltb, eq→==, ne→==, u32, pos,
}
use mathlib.Core.Path.{subst}
use cki_artifact.Pkm.State.{Cntr, VirtioNet}
use cki_artifact.Pkm.World.{Kernel, World, Resource, signal, done}
use cki_artifact.Pkm.Laws.{NeverNull}
use cki_artifact.Pkm.Mmio.{mmio_write}
use cki_artifact.Pkm.Vring.{cntr_ioctl_set_vring_efds}
use cki_artifact.Pkm.Vring.Balance.{
  with_efds, IsFetched, refused, handed, cntr_ioctl_set_vring_efds-Handed,
}
use cki_artifact.Pkm.Threads.{Place, Threads, Turns, begin, turn}
use cki_artifact.Pkm.Lifetime.Moves.{Moved, keeps, wires, Turn-Moved}
use cki_artifact.Pkm.Lifetime.Resources.{IsFetched-there}

-- The queue has an eventfd for the notifications of the container, from the kernel's lookup.
abbrev HasKick : Kernel → ℕ → Cntr → Type 0
HasKick k i c = IsFetched k (c.virtio_net.queues i).kick

with_efds-HasKick :
    (k : Kernel) (i idx kick call : ℕ) (c : Cntr)
    → IsFetched k kick
    → HasKick k i c
    → HasKick k i (with_efds c idx kick call)
with_efds-HasKick k i idx kick call c gk h = elim (Bool-cases (idx == i)) [
  | inl e ↦ rw e gk
  | inr e ↦ rw e h
]

Moved-HasKick :
    (k : Kernel) (i : ℕ) (s : Threads) (more : List Resource) (q : Threads)
    → HasKick k i s.cntr
    → Moved k s more q
    → HasKick k i q.cntr
Moved-HasKick k i s _ _ h (keeps q kin took) = rw ((kin.wired i).0) h
Moved-HasKick k i s _ _ h (wires kick call w place fits gk gc took) =
    with_efds-HasKick k i (k.copy_vring_efds s.world.log).1.idx kick call s.cntr gk h

module _ (k : Kernel) (i : ℕ) (s : Threads) (h : HasKick k i s.cntr) where
  Turns-HasKick : (lost : List Resource) (q : Threads) → Turns k s lost q → HasKick k i q.cntr
  Turns-HasKick _ _ begin = h
  Turns-HasKick _ _ (turn {lost} {more} {q} {r} ts t) =
      Moved-HasKick k i q more r (Turns-HasKick lost q ts) (Turn-Moved k q more r t)

named_queue :
    (k : Kernel) (idx kick call : ℕ) (c : Cntr)
    → IsFetched k kick
    → HasKick k idx (with_efds c idx kick call)
named_queue k idx kick call c gk = rw (eq→== idx idx refl) gk

-- A success has given the named queue an eventfd.
Handed-HasKick :
    (k : Kernel) (c c₁ : Cntr) (w w₁ : World)
    → cntr_ioctl_set_vring_efds k c w ≡ done (pos 0, c₁) w₁
    → ((k.copy_vring_efds w.log).1.idx < 2) × HasKick k (k.copy_vring_efds w.log).1.idx c₁
Handed-HasKick k c c₁ w w₁ e = elim (cntr_ioctl_set_vring_efds-Handed k c w) [
  | refused n w' eq t ↦ absurd (cc (e, eq))
  | handed kick call w' fits gk gc eq t ↦
      let idx = (k.copy_vring_efds w.log).1.idx in
      let same : with_efds c idx kick call ≡ c₁ = cc (e, eq) in
      (fits, subst (HasKick k idx) same (named_queue k idx kick call c gk))
]

notify-signals :
    (net : VirtioNet) (val idx : ℕ) (w : World)
    → u32 val ≡ idx
    → idx < 2
    → (net.queues idx).kick ≢ 0
    → mmio_write net val 0x50 4 w
      ≡ done (net, 0) (record w { log = signal (net.queues idx).kick ∷ w.log })
unfolding mmio_write
notify-signals net val idx w named fits there =
    rw (named, lt→ltb idx 2 fits, ne→== (net.queues idx).kick 0 there) refl

-- Once a request has handed over the eventfds of a queue, then after any further turns of the
-- launcher's threads that neither fault nor spin, a notification of this queue by the container
-- does not fault: it returns 0 to the container and signals an eventfd that the lookup has answered
-- with. Condition: the lookup of eventfds never answers with NULL.
pub mmio_write-Turns :
    (k : Kernel) (c c₁ : Cntr) (w w₁ w₂ : World) (place : ℕ → Place) (lost : List Resource)
    (q : Threads) (val : ℕ)
    → NeverNull k
    → cntr_ioctl_set_vring_efds k c w ≡ done (pos 0, c₁) w₁
    → Turns k (record { cntr = c₁; world = w₁; place = place }) lost q
    → u32 val ≡ (k.copy_vring_efds w.log).1.idx
    → (kick : ℕ) × IsFetched k kick
      × (mmio_write q.cntr.virtio_net val 0x50 4 w₂
          ≡ done (q.cntr.virtio_net, 0) (record w₂ { log = signal kick ∷ w₂.log }))
mmio_write-Turns k c c₁ w w₁ w₂ place lost q val law e turns named =
    let idx = (k.copy_vring_efds w.log).1.idx in
    let (fits, first) = Handed-HasKick k c c₁ w w₁ e in
    let kick = (q.cntr.virtio_net.queues idx).kick in
    let now : HasKick k idx q.cntr =
      Turns-HasKick k idx (record { cntr = c₁; world = w₁; place = place }) first lost q turns in
    (
      kick,
      now,
      notify-signals q.cntr.virtio_net val idx w₂ named fits (IsFetched-there k kick law now),
    )
