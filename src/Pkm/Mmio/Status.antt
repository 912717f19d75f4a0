-- ===== src/Pkm/Mmio/Status.antt =====
-- The device status register of the virtio device: how a driver's writes move it.
use cki_artifact.Base.{
  ℕ, ◌+◌, ◌^◌, ◌%◌, ◌≤◌, ◌<◌, ◌≡◌, refl, ◌⊎◌, inl, inr, ◌≢◌, bit_and, not32, arith, Bool,
  Bool-cases, true, ◌==◌, leb, ◌&&◌, ◌||◌, agree_below, agree_below_lem,
}
use cki_artifact.Base.Bits.{bit_and-add_complement, bit_and-le_left}
use cki_artifact.Pkm.State.{VirtioNet}
use cki_artifact.Pkm.World.{World, Run, done, spin}
use cki_artifact.Pkm.Mmio.{mmio_write_device_status}

-- The nonzero writes that are taken: the old status, and the value written.
pub data Accepts (old new : ℕ) : Type 0 where
  acknowledge : old ≡ 0 → new ≡ 1 → Accepts old new
  driver : old ≡ 1 → 2 ≤ new → new ≤ 3 → Accepts old new
  features_ok : old ≡ 3 → 8 ≤ new → new ≤ 11 → Accepts old new
  driver_ok : old ≡ 11 → ((4 ≤ new) × (new ≤ 7)) ⊎ ((12 ≤ new) × (new ≤ 15)) → Accepts old new

-- The bits that a write turns on, with those that it keeps, make up the value.
status_parts :
    (old status : ℕ)
    → old < 2 ^ 32
    → status < 2 ^ 32
    → bit_and (not32 old) status + bit_and old status ≡ status
status_parts old status h k =
    let parts = bit_and-add_complement 32 old status h k in
    let small : old % 2 ^ 32 ≡ old = omega arith in rw small parts

-- The last two edges, as tests of the values below 16.
features_ok_values : (s : ℕ) → s < 16 → (bit_and (not32 3) s == 8) ≡ (leb 8 s && leb s 11)
unfolding agree_below
features_ok_values s h =
    agree_below_lem 16 (λ s. bit_and (not32 3) s == 8) (λ s. leb 8 s && leb s 11) s refl h

driver_ok_values :
    (s : ℕ) → s < 16 → (bit_and (not32 11) s == 4) ≡ ((leb 4 s && leb s 7) || leb 12 s)
unfolding agree_below
driver_ok_values s h =
    agree_below_lem 16 (λ s. bit_and (not32 11) s == 4) (λ s. (leb 4 s && leb s 7) || leb 12 s) s
      refl h

driver_values : (s : ℕ) → s < 16 → (bit_and (not32 1) s == 2) ≡ (leb 2 s && leb s 3)
unfolding agree_below
driver_values s h =
    agree_below_lem 16 (λ s. bit_and (not32 1) s == 2) (λ s. leb 2 s && leb s 3) s refl h

acknowledge_values : (s : ℕ) → s < 16 → (bit_and (not32 0) s == 1) ≡ (s == 1)
unfolding agree_below
acknowledge_values s h = agree_below_lem 16 (λ s. bit_and (not32 0) s == 1) (λ s. s == 1) s refl h

-- The test of each edge, and what is written where it passes.
module _ (old s : ℕ) (h : old < 2 ^ 32) (k : s < 2 ^ 32) where
  edge_acknowledge : (bit_and (not32 old) s == 1 && old == 0) ≡ true → Accepts old s
  edge_acknowledge t =
      acknowledge (ground arith)
        (ground (arith, status_parts old s h k, bit_and-le_left 32 old s h))

  edge_driver : (bit_and (not32 old) s == 2 && old == 1) ≡ true → Accepts old s
  edge_driver t =
      driver (ground arith) (ground (arith, status_parts old s h k, bit_and-le_left 32 old s h))
        (ground (arith, status_parts old s h k, bit_and-le_left 32 old s h))

  edge_features_ok : (bit_and (not32 old) s == 8 && old == 3) ≡ true → Accepts old s
  edge_features_ok t =
      features_ok (ground arith)
        (ground (arith, status_parts old s h k, bit_and-le_left 32 old s h))
        (ground (arith, status_parts old s h k, bit_and-le_left 32 old s h))

  edge_driver_ok : (bit_and (not32 old) s == 4 && old == 11) ≡ true → Accepts old s
  edge_driver_ok t =
      driver_ok (ground arith)
        (ground (arith, status_parts old s h k, bit_and-le_left 32 old s h, driver_ok_values s))

module _ (net : VirtioNet) (s : ℕ) (w : World) where
  -- A write of 0 is taken and changes nothing.
  pub write_zero : mmio_write_device_status net 0 w ≡ done net w
  unfolding mmio_write_device_status
  write_zero = refl

  pub write_accepted :
      Accepts net.device_status s
      → mmio_write_device_status net s w ≡ done (record net { device_status = s }) w
  unfolding mmio_write_device_status
  write_accepted (acknowledge e v) = rw (e, v, mmio_write_device_status)
  write_accepted (driver e lo hi) = ground (arith, driver_values s)
  write_accepted (features_ok e lo hi) = ground (arith, features_ok_values s)
  write_accepted (driver_ok e v) = ground (arith, driver_ok_values s)

  pub write_refused :
      net.device_status < 2 ^ 32
      → s < 2 ^ 32
      → s ≢ 0
      → ¬ Accepts net.device_status s
      → mmio_write_device_status net s w ≡ spin w
  unfolding mmio_write_device_status
  write_refused h k nz never = ground (
    arith,
    λ (t : _ ≡ true). never (edge_acknowledge net.device_status s h k t),
    λ (t : _ ≡ true). never (edge_driver net.device_status s h k t),
    λ (t : _ ≡ true). never (edge_features_ok net.device_status s h k t),
    λ (t : _ ≡ true). never (edge_driver_ok net.device_status s h k t),
  )

-- What a write to the status register does, each way: 0 changes nothing, an accepted value is
-- stored, and any other makes the processor spin.
pub data StatusWrite (net : VirtioNet) (s : ℕ) (w : World) (r : Run VirtioNet) : Type 0 where
  ignored : s ≡ 0 → r ≡ done net w → StatusWrite net s w r
  stored :
      Accepts net.device_status s
      → r ≡ done (record net { device_status = s }) w
      → StatusWrite net s w r
  refused : s ≢ 0 → ¬ Accepts net.device_status s → r ≡ spin w → StatusWrite net s w r

pub Accepts-ne_zero : (old s : ℕ) → Accepts old s → s ≢ 0
Accepts-ne_zero old s (acknowledge e v) = omega arith
Accepts-ne_zero old s (driver e lo hi) = omega arith
Accepts-ne_zero old s (features_ok e lo hi) = omega arith
Accepts-ne_zero old s (driver_ok e v) = omega arith

-- The values that follow each status, as a test.
abbrev accepted : (old s : ℕ) → Bool
accepted old s =
    (old == 0 && s == 1)
    || ((old == 1 && leb 2 s && leb s 3)
        || ((old == 3 && leb 8 s && leb s 11)
            || (old == 11 && ((leb 4 s && leb s 7) || (leb 12 s && leb s 15)))))

Accepts-accepted : (old s : ℕ) → Accepts old s → accepted old s ≡ true
Accepts-accepted old s (acknowledge e v) = ground arith
Accepts-accepted old s (driver e lo hi) = ground arith
Accepts-accepted old s (features_ok e lo hi) = ground arith
Accepts-accepted old s (driver_ok e v) = ground arith

accepted-Accepts : (old s : ℕ) → accepted old s ≡ true → Accepts old s
accepted-Accepts old s t = grind (arith, acknowledge, driver, features_ok, driver_ok)

-- A 32-bit write to the status register of a device with a 32-bit status does exactly one of
-- three things: 0 is ignored, a value that the negotiation accepts next is stored, and any other
-- value makes the processor spin.
pub write-StatusWrite :
    (net : VirtioNet) (s : ℕ) (w : World)
    → net.device_status < 2 ^ 32
    → s < 2 ^ 32
    → StatusWrite net s w (mmio_write_device_status net s w)
write-StatusWrite net s w h k = elim (Bool-cases (s == 0)) [
  | inl z ↦ let e : s ≡ 0 = ground arith in ignored e (rw e (write_zero net s w))
  | inr nz ↦ elim (Bool-cases (accepted net.device_status s)) [
    | inl t ↦ let a = accepted-Accepts net.device_status s t in stored a (write_accepted net s w a)
    | inr f ↦
        let never : ¬ Accepts net.device_status s =
          λ a. cc (Accepts-accepted net.device_status s a) in
        refused (ground arith) never (write_refused net s w h k (ground arith) never)
  ]
]
