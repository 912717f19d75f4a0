-- ===== src/Pkm/Mmio/Negotiation.antt =====
-- A driver's writes to the status register, one after the other.
use cki_artifact.Base.{
  ℕ, ◌^◌, ◌≤◌, ◌<◌, ◌≡◌, refl, ◌⊎◌, inl, inr, ◌≢◌, arith, u32, Bool-cases, List, [], ◌∷◌, ◌==◌,
  if◌then◌else◌, eq→==, ne→==,
}
use cki_artifact.Pkm.State.{VirtioNet}
use cki_artifact.Pkm.World.{World, Run, done, Cmd, pure, ◌>>=◌, and_then}
use cki_artifact.Pkm.Mmio.{mmio_write_device_status}
use cki_artifact.Pkm.Mmio.Status.{
  Accepts, acknowledge, driver, features_ok, driver_ok, StatusWrite, ignored, stored, refused,
  write-StatusWrite, Accepts-ne_zero,
}

unfoldable pub write_statuses : List ℕ → VirtioNet → Cmd VirtioNet
write_statuses [] net = pure net
write_statuses (v ∷ vs) net = do net' ← mmio_write_device_status net (u32 v); write_statuses vs net'

-- The values written, without the zeros.
abbrev pub nonzero_writes : List ℕ → List ℕ
nonzero_writes [] = []
nonzero_writes (v ∷ vs) = let rest = nonzero_writes vs in if u32 v == 0 then rest else u32 v ∷ rest

-- The writes that take a device from a status to another.
pub data Negotiates : ℕ → List ℕ → ℕ → Type 0 where
  stay : {s : ℕ} → Negotiates s [] s
  move : {s t u : ℕ} {vs : List ℕ} → Accepts s t → Negotiates t vs u → Negotiates s (t ∷ vs) u

step_done :
    (vs : List ℕ) (net net' : VirtioNet) (s : ℕ) (w w' : World) (r : Run VirtioNet)
    → StatusWrite net s w r
    → and_then r (write_statuses vs) ≡ done net' w'
    → ((s ≡ 0) × (write_statuses vs net w ≡ done net' w'))
      ⊎ (Accepts net.device_status s
          × (write_statuses vs (record net { device_status = s }) w ≡ done net' w'))
step_done vs net net' s w w' r (ignored z e) h = inl (z, rw e at h)
step_done vs net net' s w w' r (stored a e) h = inr (a, rw e at h)
step_done vs net net' s w w' r (refused z never e) h = cc

write_statuses-Negotiates :
    (vs : List ℕ) (net net' : VirtioNet) (w w' : World)
    → net.device_status < 2 ^ 32
    → write_statuses vs net w ≡ done net' w'
    → Negotiates net.device_status (nonzero_writes vs) net'.device_status
unfolding write_statuses
write_statuses-Negotiates [] net net' w w' h e = let same : net ≡ net' = cc in rw (← same) stay
write_statuses-Negotiates (v ∷ vs) net net' w w' h e =
    elim (step_done vs net net' (u32 v) w w' _ (write-StatusWrite net (u32 v) w h (omega arith))
      e) [
        | inl (z, e') ↦ rw (eq→== (u32 v) 0 z) (write_statuses-Negotiates vs net net' w w' h e')
        | inr (a, e') ↦ rw (ne→== (u32 v) 0 (Accepts-ne_zero _ _ a)) (
            move a (
              write_statuses-Negotiates vs (record net { device_status = u32 v }) net' w w'
                (omega arith) e'))
      ]

-- `VIRTIO_CONFIG_S_DRIVER_OK` is on, among the statuses below 16.
abbrev pub IsLive : ℕ → Type 0
IsLive s = ((4 ≤ s) × (s ≤ 7)) ⊎ ((12 ≤ s) × (s ≤ 15))

abbrev IsDeadEnd : ℕ → Type 0
IsDeadEnd s = (s ≢ 0) × (s ≢ 1) × (s ≢ 3) × (s ≢ 11)

not_accepted : {s t : ℕ} → IsDeadEnd s → ¬ Accepts s t
not_accepted d (acknowledge e v) = d.0 e
not_accepted d (driver e lo hi) = d.1 e
not_accepted d (features_ok e lo hi) = d.2 e
not_accepted d (driver_ok e v) = d.3 e

from_dead_end : {s u : ℕ} {vs : List ℕ} → IsDeadEnd s → Negotiates s vs u → (vs ≡ []) × (u ≡ s)
from_dead_end d stay = (refl, refl)
from_dead_end d (move a n) = absurd (not_accepted d a)

from_eleven : {s u : ℕ} {vs : List ℕ} → s ≡ 11 → Negotiates s vs u → IsLive u → vs ≡ u ∷ []
from_eleven e stay live = absurd (omega arith)
from_eleven {u} e (move {t} (driver_ok _ v) n) live =
    let (nothing, same) = from_dead_end (omega arith) n in cc (nothing, same)
from_eleven e (move (acknowledge e' _) n) live = absurd (omega arith)
from_eleven e (move (driver e' _ _) n) live = absurd (omega arith)
from_eleven e (move (features_ok e' _ _) n) live = absurd (omega arith)

from_three : {s u : ℕ} {vs : List ℕ} → s ≡ 3 → Negotiates s vs u → IsLive u → vs ≡ 11 ∷ u ∷ []
from_three e stay live = absurd (omega arith)
from_three e (move {t} (features_ok _ lo hi) n) live = elim (Bool-cases (t == 11)) [
  | inl q ↦ let q' : t ≡ 11 = ground arith in cc (q', from_eleven q' n live)
  | inr q ↦
      let q' : t ≢ 11 = ground arith in
      let (_, same) = from_dead_end (omega arith) n in absurd (omega arith)
]
from_three e (move (acknowledge e' _) n) live = absurd (omega arith)
from_three e (move (driver e' _ _) n) live = absurd (omega arith)
from_three e (move (driver_ok e' _) n) live = absurd (omega arith)

from_one : {s u : ℕ} {vs : List ℕ} → s ≡ 1 → Negotiates s vs u → IsLive u → vs ≡ 3 ∷ 11 ∷ u ∷ []
from_one e stay live = absurd (omega arith)
from_one e (move {t} (driver _ lo hi) n) live = elim (Bool-cases (t == 3)) [
  | inl q ↦ let q' : t ≡ 3 = ground arith in cc (q', from_three q' n live)
  | inr q ↦
      let q' : t ≢ 3 = ground arith in
      let (_, same) = from_dead_end (omega arith) n in absurd (omega arith)
]
from_one e (move (acknowledge e' _) n) live = absurd (omega arith)
from_one e (move (features_ok e' _ _) n) live = absurd (omega arith)
from_one e (move (driver_ok e' _) n) live = absurd (omega arith)

from_zero :
    {s u : ℕ} {vs : List ℕ} → s ≡ 0 → Negotiates s vs u → IsLive u → vs ≡ 1 ∷ 3 ∷ 11 ∷ u ∷ []
from_zero e stay live = absurd (omega arith)
from_zero e (move {t} (acknowledge _ q) n) live = cc (q, from_one q n live)
from_zero e (move (driver e' _ _) n) live = absurd (omega arith)
from_zero e (move (features_ok e' _ _) n) live = absurd (omega arith)
from_zero e (move (driver_ok e' _) n) live = absurd (omega arith)

-- A device that starts at status 0 and has been brought to a status with DRIVER_OK on, by any
-- writes that did not make the processor spin, has been written 1, 3, 11 and that status, in this
-- order, and besides those only zeros.
pub write_statuses-live :
    (vs : List ℕ) (net net' : VirtioNet) (w w' : World)
    → net.device_status ≡ 0
    → write_statuses vs net w ≡ done net' w'
    → IsLive net'.device_status
    → nonzero_writes vs ≡ 1 ∷ 3 ∷ 11 ∷ net'.device_status ∷ []
write_statuses-live vs net net' w w' z e live =
    from_zero z (write_statuses-Negotiates vs net net' w w' (omega arith) e) live
