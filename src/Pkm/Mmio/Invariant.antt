-- ===== src/Pkm/Mmio/Invariant.antt =====
-- What holds of the virtio device between two register accesses of its driver.
use cki_artifact.Base.{
  ℕ, ◌*◌, ◌/◌, ◌%◌, ◌^◌, ◌<◌, ◌≡◌, refl, ◌∙◌, arith, bit_and, bit_or, ltb, ◌==◌, Bool-cases,
  if_both, inl, inr, u32, u16, not,
}
use cki_artifact.Base.Bits.{bit_or-lt, bit_and-le_right, bit_and-bit_or_mask}
use cki_artifact.Pkm.Abi.{status_driver, status_features_ok, status_failed}
use cki_artifact.Pkm.State.{VirtioQueue, VirtioNet}
use cki_artifact.Pkm.World.{World, Run, done, oops, spin, pure, and_then}
use cki_artifact.Pkm.Mmio.{
  offered_features, to_bool, select_features, queue_set, with_low, with_high,
  mmio_write_acked_features, WriteReg, device_status, features_select, acked_features_select,
  acked_features, queue_select, queue_size, desc_low, desc_high, avail_low, avail_high, used_low,
  used_high, queue_ready, queue_notify, unknown, write_to,
}
use cki_artifact.Pkm.Mmio.Status.{
  Accepts, acknowledge, driver, features_ok, driver_ok, write-StatusWrite, StatusWrite, ignored,
  stored, refused,
}

-- The fields hold what their C types can.
pub record QueueIsValid (q : VirtioQueue) : Type 0 where
  pub size_fits : q.size < 2 ^ 16
  pub desc_fits : q.desc_table < 2 ^ 64
  pub avail_fits : q.avail_ring < 2 ^ 64
  pub used_fits : q.used_ring < 2 ^ 64

pub record NetIsValid (net : VirtioNet) : Type 0 where
  pub status_fits : net.device_status < 16
  pub offer : net.avail_features ≡ offered_features
  pub acked_offered : bit_and net.acked_features net.avail_features ≡ net.acked_features
  pub queues_valid : (i : ℕ) → QueueIsValid (net.queues i)
  pub max_sizes : (i : ℕ) → i < 2 → (net.queues i).max_size ≡ 256

with_low-lt : (old val : ℕ) → val < 2 ^ 64 → with_low old val < 2 ^ 64
unfolding with_low
with_low-lt old val h = bit_or-lt 64 (old / 2 ^ 32 * 2 ^ 32 % 2 ^ 64) val (omega arith) h

with_high-lt : (old val : ℕ) → with_high old val < 2 ^ 64
unfolding with_high
with_high-lt old val =
    bit_or-lt 64 (val * 2 ^ 32 % 2 ^ 64) (old * 2 ^ 32 % 2 ^ 64 / 2 ^ 32) (omega arith)
      (omega arith)

module _ (net : VirtioNet) (f : VirtioQueue → VirtioQueue) (v : NetIsValid net) where
  queue_set-NetIsValid :
      ((q : VirtioQueue) → QueueIsValid q → QueueIsValid (f q))
      → ((q : VirtioQueue) → (f q).max_size ≡ q.max_size)
      → NetIsValid (queue_set net f)
  unfolding queue_set
  queue_set-NetIsValid keep same = elim (Bool-cases (ltb net.queue_select 2)) [
    | inl there ↦ rw there (record {
      status_fits = v.status_fits;
      offer = v.offer;
      acked_offered = v.acked_offered;
      queues_valid = λ i. elim (Bool-cases (net.queue_select == i)) [
        | inl hit ↦ rw hit (keep _ (v.queues_valid net.queue_select))
        | inr miss ↦ rw miss (v.queues_valid i)
      ];
      max_sizes = λ i lt. elim (Bool-cases (net.queue_select == i)) [
        | inl hit ↦
            rw hit
              (same (net.queues net.queue_select) ∙ v.max_sizes net.queue_select (ground arith))
        | inr miss ↦ rw miss (v.max_sizes i lt)
      ];
    })
    | inr past ↦ rw past v
  ]

acked-lt : (net : VirtioNet) → NetIsValid net → net.acked_features < 2 ^ 64
acked-lt net v = omega (
  arith,
  v.acked_offered,
  v.offer,
  bit_and-le_right 64 net.acked_features net.avail_features (omega (arith, v.offer)),
)

acknowledge_more :
    (net : VirtioNet) (f : ℕ)
    → NetIsValid net
    → NetIsValid
        (record net { acked_features = bit_or net.acked_features (bit_and f net.avail_features) })
acknowledge_more net f v = record {
  status_fits = v.status_fits;
  offer = v.offer;
  acked_offered =
      bit_and-bit_or_mask 64 net.acked_features f net.avail_features (acked-lt net v)
        (omega (arith, v.offer)) v.acked_offered;
  queues_valid = v.queues_valid;
  max_sizes = v.max_sizes;
}

mmio_write_acked_features-NetIsValid :
    (net : VirtioNet) (features : ℕ)
    → NetIsValid net
    → NetIsValid (mmio_write_acked_features net features)
unfolding mmio_write_acked_features
mmio_write_acked_features-NetIsValid net features v =
    let status = net.device_status in
    if_both NetIsValid (bit_and status status_driver == 0) v (
      if_both NetIsValid (not (bit_and status status_features_ok == 0)) v (
        if_both NetIsValid (not (bit_and status status_failed == 0)) v
          (acknowledge_more net (select_features net.acked_features_select features) v)))

StatusWrite-NetIsValid :
    (net net' : VirtioNet) (s : ℕ) (w w' : World) (r : Run VirtioNet)
    → NetIsValid net
    → StatusWrite net s w r
    → r ≡ done net' w'
    → NetIsValid net'
StatusWrite-NetIsValid net net' s w w' r v (ignored z e) h =
    let same : net ≡ net' = cc in rw (← same) v
StatusWrite-NetIsValid net net' s w w' r v (stored a e) h =
    let same : record net { device_status = s } ≡ net' = cc in
    rw (← same) (record {
      status_fits = below a;
      offer = v.offer;
      acked_offered = v.acked_offered;
      queues_valid = v.queues_valid;
      max_sizes = v.max_sizes;
    })
  where
    below : Accepts net.device_status s → s < 16
    below (acknowledge o q) = omega arith
    below (driver o lo hi) = omega arith
    below (features_ok o lo hi) = omega arith
    below (driver_ok o q) = omega arith
StatusWrite-NetIsValid net net' s w w' r v (refused z a e) h = cc

abbrev Keeps : (VirtioQueue → VirtioQueue) → Type 0
Keeps f =
    ((q : VirtioQueue) → QueueIsValid q → QueueIsValid (f q))
    × ((q : VirtioQueue) → (f q).max_size ≡ q.max_size)

set_desc-Keeps : (a : ℕ) → a < 2 ^ 64 → Keeps (λ q. record q { desc_table = a })
set_desc-Keeps a h = (λ q v. ground arith, λ q. refl)

set_avail-Keeps : (a : ℕ) → a < 2 ^ 64 → Keeps (λ q. record q { avail_ring = a })
set_avail-Keeps a h = (λ q v. ground arith, λ q. refl)

set_used-Keeps : (a : ℕ) → a < 2 ^ 64 → Keeps (λ q. record q { used_ring = a })
set_used-Keeps a h = (λ q v. ground arith, λ q. refl)

module _ {net net' : VirtioNet} {n r : ℕ} {w w' : World} where
  returned :
      NetIsValid net
      → ◌≡◌ {A = Run (VirtioNet × ℕ)} (done (net, n) w) (done (net', r) w')
      → NetIsValid net'
  returned v e = let same : net ≡ net' = cc in rw (← same) v

set_returned :
    {net net' : VirtioNet} {n r : ℕ} {w w' : World} (f : VirtioQueue → VirtioQueue)
    → NetIsValid net
    → Keeps f
    → ◌≡◌ {A = Run (VirtioNet × ℕ)} (done (queue_set net f, n) w) (done (net', r) w')
    → NetIsValid net'
set_returned {net} f v k = returned (queue_set-NetIsValid net f v k.0 k.1)

status_returned :
    (net net' : VirtioNet) (s r : ℕ) (w w' : World) (m : Run VirtioNet)
    → NetIsValid net
    → StatusWrite net s w m
    → and_then {B = VirtioNet × ℕ} m (λ n. pure (n, 0)) ≡ done (net', r) w'
    → NetIsValid net'
status_returned net net' s r w w' (done n x) v st e =
    returned (StatusWrite-NetIsValid net n s w x (done n x) v st refl) e
status_returned net net' s r w w' (oops x) v st e = cc
status_returned net net' s r w w' (spin x) v st e = cc

-- Every write to every register, at any value, keeps the device valid wherever it returns: what
-- has been acknowledged stays within the offer, the status below 16, and each field of a queue
-- within its type.
pub write_to-NetIsValid :
    (reg : WriteReg) (net net' : VirtioNet) (val r : ℕ) (w w' : World)
    → NetIsValid net
    → val < 2 ^ 64
    → write_to reg net val w ≡ done (net', r) w'
    → NetIsValid net'
unfolding write_to
write_to-NetIsValid device_status net net' val r w w' v h e =
    status_returned net net' (u32 val) r w w' _ v
      (write-StatusWrite net (u32 val) w (omega (arith, v.status_fits)) (omega arith)) e
write_to-NetIsValid features_select net net' val r w w' v h e = ground arith
write_to-NetIsValid acked_features_select net net' val r w w' v h e = ground arith
write_to-NetIsValid acked_features net net' val r w w' v h e =
    returned (mmio_write_acked_features-NetIsValid net (u32 val) v) e
write_to-NetIsValid queue_select net net' val r w w' v h e = ground arith
write_to-NetIsValid queue_size net net' val r w w' v h e =
    set_returned (λ q. record q { size = u16 val }) v (λ q k. ground arith, λ q. refl) e
write_to-NetIsValid desc_low net net' val r w w' v h e =
    set_returned _ v (set_desc-Keeps _ (with_low-lt _ val h)) e
write_to-NetIsValid desc_high net net' val r w w' v h e =
    set_returned _ v (set_desc-Keeps _ (with_high-lt _ val)) e
write_to-NetIsValid avail_low net net' val r w w' v h e =
    set_returned _ v (set_avail-Keeps _ (with_low-lt _ val h)) e
write_to-NetIsValid avail_high net net' val r w w' v h e =
    set_returned _ v (set_avail-Keeps _ (with_high-lt _ val)) e
write_to-NetIsValid used_low net net' val r w w' v h e =
    set_returned _ v (set_used-Keeps _ (with_low-lt _ val h)) e
write_to-NetIsValid used_high net net' val r w w' v h e =
    set_returned _ v (set_used-Keeps _ (with_high-lt _ val)) e
write_to-NetIsValid queue_ready net net' val r w w' v h e =
    set_returned (λ q. record q { ready = to_bool val }) v (λ q k. ground arith, λ q. refl) e
write_to-NetIsValid queue_notify net net' val r w w' v h e = ground arith
write_to-NetIsValid unknown net net' val r w w' v h e = cc
