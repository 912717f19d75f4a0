-- ===== src/Pkm/Mmio/Bounds.antt =====
-- Which queues of the virtio device an access touches: the two that exist, and no memory behind.
use cki_artifact.Base.{ℕ, ◌≤◌, ◌≡◌, refl, ap, arith, le→ltb, inl, inr, ◌⊎◌, ◌≢◌, u16, u32}
use cki_artifact.Pkm.State.{VirtioQueue, VirtioNet}
use cki_artifact.Pkm.World.{World, Run, done, oops, spin, pure, and_then}
use cki_artifact.Pkm.Mmio.{
  queue_set, queue_get, of_bool, mmio_write_acked_features, mmio_write_device_status, WriteReg,
  device_status, features_select, acked_features_select, acked_features, queue_select, queue_size,
  desc_low, desc_high, avail_low, avail_high, used_low, used_high, queue_ready, queue_notify,
  unknown, set_desc, set_avail, set_used, to_bool, write_to, write_reg, mmio_write, mmio_read,
}

-- The queue `j` is not the one that is selected, or is past the end of the array.
abbrev pub IsUntouched : VirtioNet → ℕ → Type 0
IsUntouched net j = (net.queue_select ≢ j) ⊎ (2 ≤ j)

queue_set-untouched :
    (net : VirtioNet) (f : VirtioQueue → VirtioQueue) (j : ℕ)
    → IsUntouched net j
    → (queue_set net f).queues j ≡ net.queues j
unfolding queue_set
queue_set-untouched net f j (inl other) = ground arith
queue_set-untouched net f j (inr past) = ground arith

returned :
    (net net₁ net' : VirtioNet) (n r j : ℕ) (w w' : World)
    → net₁.queues j ≡ net.queues j
    → ◌≡◌ {A = Run (VirtioNet × ℕ)} (done (net₁, n) w) (done (net', r) w')
    → net'.queues j ≡ net.queues j
returned net net₁ net' n r j w w' same e = let q : net₁ ≡ net' = cc in rw (← q) same

device_status-queues :
    (net n : VirtioNet) (s : ℕ) (w x : World)
    → mmio_write_device_status net s w ≡ done n x
    → n.queues ≡ net.queues
unfolding mmio_write_device_status
device_status-queues net n s w x e = ground arith

acked_features-queues :
    (net : VirtioNet) (f : ℕ) → (mmio_write_acked_features net f).queues ≡ net.queues
unfolding mmio_write_acked_features
acked_features-queues net f = ground arith

device_status_returned :
    (net net' : VirtioNet) (s r j : ℕ) (w w' : World) (m : Run VirtioNet)
    → mmio_write_device_status net s w ≡ m
    → and_then {B = VirtioNet × ℕ} m (λ n. pure (n, 0)) ≡ done (net', r) w'
    → net'.queues j ≡ net.queues j
device_status_returned net net' s r j w w' (done n x) e h =
    returned net n net' 0 r j x w' (ap (λ q. q j) (device_status-queues net n s w x e)) h
device_status_returned net net' s r j w w' (oops x) e h = cc
device_status_returned net net' s r j w w' (spin x) e h = cc

module _ (net net' : VirtioNet) (val r j : ℕ) (w w' : World) (u : IsUntouched net j) where
  set_returned :
      {n : ℕ} (f : VirtioQueue → VirtioQueue)
      → ◌≡◌ {A = Run (VirtioNet × ℕ)} (done (queue_set net f, n) w) (done (net', r) w')
      → net'.queues j ≡ net.queues j
  set_returned f = returned net _ net' _ r j w w' (queue_set-untouched net f j u)

  write_to-untouched :
      (reg : WriteReg) → write_to reg net val w ≡ done (net', r) w' → net'.queues j ≡ net.queues j
  unfolding write_to
  write_to-untouched device_status e = device_status_returned net net' (u32 val) r j w w' _ refl e
  write_to-untouched features_select e = returned net _ net' _ r j w w' refl e
  write_to-untouched acked_features_select e = returned net _ net' _ r j w w' refl e
  write_to-untouched acked_features e =
      returned net _ net' _ r j w w' (ap (λ q. q j) (acked_features-queues net (u32 val))) e
  write_to-untouched queue_select e = returned net _ net' _ r j w w' refl e
  write_to-untouched queue_notify e = ground arith
  write_to-untouched unknown e = cc
  write_to-untouched queue_size e = set_returned (λ q. record q { size = u16 val }) e
  write_to-untouched desc_low e = set_returned (set_desc _) e
  write_to-untouched desc_high e = set_returned (set_desc _) e
  write_to-untouched avail_low e = set_returned (set_avail _) e
  write_to-untouched avail_high e = set_returned (set_avail _) e
  write_to-untouched used_low e = set_returned (set_used _) e
  write_to-untouched used_high e = set_returned (set_used _) e
  write_to-untouched queue_ready e = set_returned (λ q. record q { ready = to_bool val }) e

  -- A register write that returns leaves every queue as it was, but for the selected one, and
  -- leaves all that lies past the end of the queue array as it was, whatever is selected.
  pub mmio_write-untouched :
      (offset size : ℕ)
      → mmio_write net val offset size w ≡ done (net', r) w'
      → net'.queues j ≡ net.queues j
  unfolding mmio_write
  mmio_write-untouched offset size e = write_to-untouched (write_reg offset size) e

queue_get-in_bounds :
    (net : VirtioNet) (queues : ℕ → VirtioQueue) (attr : VirtioQueue → ℕ)
    → queues 0 ≡ net.queues 0
    → queues 1 ≡ net.queues 1
    → queue_get (record net { queues = queues }) attr ≡ queue_get net attr
unfolding queue_get
queue_get-in_bounds net queues attr h k = elim (low_cases net.queue_select) [
  | inl e ↦ rw (e, h)
  | inr (inl e) ↦ rw (e, k)
  | inr (inr past) ↦ rw (le→ltb net.queue_select 2 past)
]
  where
    low_cases : (i : ℕ) → (i ≡ 0) ⊎ (i ≡ 1) ⊎ (2 ≤ i)
    low_cases i = ground arith

-- What a register read answers depends on the two queues that exist alone: over a device that
-- differs only past the end of the array, every read gives the same.
pub mmio_read-in_bounds :
    (net : VirtioNet) (queues : ℕ → VirtioQueue) (offset size : ℕ) (w : World)
    → queues 0 ≡ net.queues 0
    → queues 1 ≡ net.queues 1
    → mmio_read (record net { queues = queues }) offset size w ≡ mmio_read net offset size w
unfolding mmio_read
mmio_read-in_bounds net queues offset size w h k = rw (
  queue_get-in_bounds net queues (λ q. of_bool q.ready) h k,
  queue_get-in_bounds net queues (λ q. q.max_size) h k,
  mmio_read,
)
