-- ===== src/Monitor/Frames.antt =====
-- The fields of an entry and of an address by division: what the monitor's masks cut out.
use cki_artifact.Base.{
  ℕ, ◌+◌, ◌-◌, ◌*◌, ◌/◌, ◌%◌, ◌^◌, ◌≤◌, ◌<◌, ◌≡◌, ap, arith, ◌⊎◌, true, false, bit_and, bit_or,
  none, some,
}
use cki_artifact.Base.Bits.{bit_or_fields}
use cki_artifact.Base.Masks.{bit_and_mask, bit_and_shifted}
use cki_artifact.Monitor.State.{has, pg_v, pg_ps, pg_frame, frame_index, get_page_desc_ptr}
use cki_artifact.Monitor.Walk.{vmask}

-- The frame that an entry or an address names, and the two flags that the monitor reads.
abbrev pub target : ℕ → ℕ
target e = e / 4096 % 2 ^ 40

abbrev pub IsPresent : ℕ → Type 0
IsPresent e = e % 2 ≡ 1

abbrev pub IsLarge : ℕ → Type 0
IsLarge e = e / 128 % 2 ≡ 1

pub bit_and-pg_frame : (e : ℕ) → bit_and e pg_frame ≡ target e * 4096
bit_and-pg_frame e =
    omega
      (arith, bit_and_shifted 12 e (2 ^ 40 - 1), ap (λ t. t * 4096) (bit_and_mask 40 (e / 2 ^ 12)))

pub frame_index_lem : (e : ℕ) → frame_index e ≡ target e
unfolding frame_index
frame_index_lem e = omega (arith, bit_and-pg_frame e)

pub get_page_desc_ptr-cases :
    (e : ℕ)
    → ((target e < 2 ^ 23) × (get_page_desc_ptr e ≡ some (target e)))
      ⊎ ((2 ^ 23 ≤ target e) × (get_page_desc_ptr e ≡ none))
unfolding get_page_desc_ptr
get_page_desc_ptr-cases e = rw (frame_index_lem e) (ground arith)

pub IsPresent-cases :
    (e : ℕ) → (IsPresent e × (has e pg_v ≡ true)) ⊎ ((e % 2 ≡ 0) × (has e pg_v ≡ false))
IsPresent-cases e = ground (arith, bit_and_mask 1 e)

pub IsLarge-cases :
    (e : ℕ) → (IsLarge e × (has e pg_ps ≡ true)) ⊎ ((e / 128 % 2 ≡ 0) × (has e pg_ps ≡ false))
IsLarge-cases e = ground (arith, bit_and_shifted 7 e 1, bit_and_mask 1 (e / 128))

-- The nine bits of a virtual address above `w`, times the size of an entry.
pub offset_lem : (va : ℕ) → bit_and va vmask ≡ va / 8 % 512 * 8
offset_lem va =
    omega (arith, bit_and_shifted 3 va (2 ^ 9 - 1), ap (λ t. t * 8) (bit_and_mask 9 (va / 2 ^ 3)))

-- A page's address and an offset in it, joined.
pub join_lem : (f o : ℕ) → o < 4096 → bit_or (f * 4096) o ≡ f * 4096 + o
join_lem f o h = bit_or_fields 12 f o h
