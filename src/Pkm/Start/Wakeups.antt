-- ===== src/Pkm/Start/Wakeups.antt =====
-- Which wake-ups end a halt.
use cki_artifact.Base.{ℕ, ◌+◌, ◌^◌, ◌<◌, ◌≡◌, ◌↔◌, arith, if◌then◌else◌, ◌==◌, none, List, [], ◌∷◌}
use cki_artifact.Pkm.Start.{handle_rkcall_halt, virtio_wakeups}

abbrev pub sum : List ℕ → ℕ
sum [] = 0
sum (n ∷ ns) = n + sum ns

-- Wake-ups reach processor 0 and no other.
abbrev pub delivered : ℕ → List ℕ → ℕ
delivered i ns = if i == 0 then sum ns else 0

virtio_wakeups-delivered :
    (i n cnt : ℕ) (ns : List ℕ)
    → cnt + delivered i (n ∷ ns) < 2 ^ 32
    → virtio_wakeups i n cnt + delivered i ns ≡ cnt + delivered i (n ∷ ns)
unfolding virtio_wakeups
virtio_wakeups-delivered i n cnt ns h = ground arith

-- While fewer than 2 ^ 32 events come, a halt goes on exactly where no event was pending at its
-- start and none is delivered to its processor: only processor 0 ever gets one.
pub handle_rkcall_halt-delivered :
    (i cnt : ℕ) (ns : List ℕ)
    → cnt + delivered i ns < 2 ^ 32
    → (handle_rkcall_halt i cnt ns ≡ none) ↔ (cnt + delivered i ns ≡ 0)
unfolding handle_rkcall_halt
handle_rkcall_halt-delivered i cnt [] h = ground arith
handle_rkcall_halt-delivered i cnt (n ∷ ns) h =
    let later = handle_rkcall_halt-delivered i (virtio_wakeups i n cnt) ns in
    let same = virtio_wakeups-delivered i n cnt ns h in ground (arith, later, same)
