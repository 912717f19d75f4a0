-- ===== src/Pkm/Mmio/Ring.antt =====
-- The ring addresses of a virtio queue, written in two halves of 32 bits.
use cki_artifact.Base.{
  ℕ, ◌+◌, ◌*◌, ◌/◌, ◌%◌, ◌^◌, ◌<◌, ◌≡◌, refl, sym, ap, ◌∙◌, fun_ext, arith, lt→ltb, eq→==,
}
use cki_artifact.Base.Bits.{bit_or_fields}
use cki_artifact.Pkm.State.{VirtioQueue, VirtioNet, update}
use cki_artifact.Pkm.World.{World, done, ◌>>=◌}
use cki_artifact.Pkm.Mmio.{queue_set, queue_get, with_low, with_high, mmio_write}

pub with_low_lem :
    (old val : ℕ) → old < 2 ^ 64 → val < 2 ^ 32 → with_low old val ≡ old / 2 ^ 32 * 2 ^ 32 + val
unfolding with_low
with_low_lem old val h k =
    let clear : old / 2 ^ 32 * 2 ^ 32 % 2 ^ 64 ≡ old / 2 ^ 32 * 2 ^ 32 = omega arith in
    rw clear (bit_or_fields 32 (old / 2 ^ 32) val k)

pub with_high_lem : (old val : ℕ) → val < 2 ^ 32 → with_high old val ≡ val * 2 ^ 32 + old % 2 ^ 32
unfolding with_high
with_high_lem old val k =
    let shifted : val * 2 ^ 32 % 2 ^ 64 ≡ val * 2 ^ 32 = omega arith in
    let low : old * 2 ^ 32 % 2 ^ 64 / 2 ^ 32 ≡ old % 2 ^ 32 = omega arith in
    rw (shifted, low) (bit_or_fields 32 val (old % 2 ^ 32) (omega arith))

-- The three rings of a queue: their fields, and the registers of their halves.
pub data Ring : Type 0 where
  desc avail used : Ring

unfoldable pub low_reg : Ring → ℕ
low_reg desc = 0x80
low_reg avail = 0x90
low_reg used = 0xa0

unfoldable pub high_reg : Ring → ℕ
high_reg desc = 0x84
high_reg avail = 0x94
high_reg used = 0xa4

unfoldable pub address : Ring → VirtioQueue → ℕ
address desc q = q.desc_table
address avail q = q.avail_ring
address used q = q.used_ring

unfoldable pub with_address : Ring → ℕ → VirtioQueue → VirtioQueue
with_address desc a q = record q { desc_table = a }
with_address avail a q = record q { avail_ring = a }
with_address used a q = record q { used_ring = a }

low_half :
    (ring : Ring) (net : VirtioNet) (val : ℕ) (w : World)
    → mmio_write net val (low_reg ring) 4 w
      ≡ done (queue_set net (with_address ring (with_low (queue_get net (address ring)) val)), 0) w
unfolding mmio_write low_reg with_address address
low_half desc net val w = refl
low_half avail net val w = refl
low_half used net val w = refl

high_half :
    (ring : Ring) (net : VirtioNet) (val : ℕ) (w : World)
    → mmio_write net val (high_reg ring) 4 w
      ≡ done (queue_set net (with_address ring (with_high (queue_get net (address ring)) val)), 0) w
unfolding mmio_write high_reg with_address address
high_half desc net val w = refl
high_half avail net val w = refl
high_half used net val w = refl

module _ (net : VirtioNet) (sel : net.queue_select < 2) where
  queue_set-selected :
      (f : VirtioQueue → VirtioQueue)
      → queue_set net f ≡ record net {
        queues = update net.queues net.queue_select (f (net.queues net.queue_select));
      }
  unfolding queue_set
  queue_set-selected f = rw (lt→ltb net.queue_select 2 sel)

  queue_get-selected :
      (attr : VirtioQueue → ℕ) → queue_get net attr ≡ attr (net.queues net.queue_select)
  unfolding queue_get
  queue_get-selected attr = rw (lt→ltb net.queue_select 2 sel)

update_self {ℓ} : {A : Type ℓ} (f : ℕ → A) (i : ℕ) (x : A) → update f i x i ≡ x
update_self f i x = rw (eq→== i i refl)

update-update {ℓ} :
    {A : Type ℓ} (f : ℕ → A) (i : ℕ) (x y : A) → update (update f i x) i y ≡ update f i y
update-update f i x y = fun_ext λ j. ground arith

address-with_address : (r : Ring) (a : ℕ) (q : VirtioQueue) → address r (with_address r a q) ≡ a
unfolding address with_address
address-with_address desc a q = refl
address-with_address avail a q = refl
address-with_address used a q = refl

with_address_twice :
    (r : Ring) (a b : ℕ) (q : VirtioQueue)
    → with_address r b (with_address r a q) ≡ with_address r b q
unfolding with_address
with_address_twice desc a b q = refl
with_address_twice avail a b q = refl
with_address_twice used a b q = refl

module _ (ring : Ring) (net : VirtioNet) (sel : net.queue_select < 2) where
  abbrev set_to : ℕ → VirtioNet
  set_to a = record net {
    queues = update net.queues net.queue_select (with_address ring a (net.queues net.queue_select));
  }

  get_set_to : (a : ℕ) → queue_get (set_to a) (address ring) ≡ a
  get_set_to a =
      queue_get-selected (set_to a) sel (address ring)
      ∙ ap (address ring) (update_self net.queues net.queue_select _)
      ∙ address-with_address ring a (net.queues net.queue_select)

  set_set_to :
      (a b : ℕ) → queue_set (set_to a) (with_address ring b) ≡ queue_set net (with_address ring b)
  set_set_to a b =
      queue_set-selected (set_to a) sel (with_address ring b)
      ∙ ap (λ f. record net { queues = f })
          (update-update net.queues net.queue_select _ _
            ∙ ap (update net.queues net.queue_select) (
                ap (with_address ring b) (update_self net.queues net.queue_select _)
                ∙ with_address_twice ring a b (net.queues net.queue_select)))
      ∙ sym (queue_set-selected net sel (with_address ring b))

  one_half :
      (a : ℕ) (g : ℕ → ℕ → ℕ) (val : ℕ)
      → queue_set (set_to a) (with_address ring (g (queue_get (set_to a) (address ring)) val))
        ≡ queue_set net (with_address ring (g a val))
  one_half a g val = rw (get_set_to a) (set_set_to a (g a val))

module _ (old lo hi : ℕ) (fits : old < 2 ^ 64) (lo_fits : lo < 2 ^ 32) (hi_fits : hi < 2 ^ 32) where
  low_then_high : with_high (with_low old lo) hi ≡ hi * 2 ^ 32 + lo
  low_then_high =
      omega (arith, with_low_lem old lo fits lo_fits, with_high_lem (with_low old lo) hi hi_fits)

  high_then_low : with_low (with_high old hi) lo ≡ hi * 2 ^ 32 + lo
  high_then_low =
      let high = with_high_lem old hi hi_fits in
      omega (arith, high, with_low_lem (with_high old hi) lo (omega (arith, high)) lo_fits)

-- For the selected queue, and for each of its three rings, a write of the low half of an address
-- and a write of its high half, in either order, set the ring to that address, and change nothing
-- else of the device. Conditions: one of the two queues is selected, the ring's old address is
-- below 2 ^ 64, and each half below 2 ^ 32.
pub write_address :
    (ring : Ring) (net : VirtioNet) (lo hi : ℕ) (w : World)
    → net.queue_select < 2
    → address ring (net.queues net.queue_select) < 2 ^ 64
    → lo < 2 ^ 32
    → hi < 2 ^ 32
    → let set = queue_set net (with_address ring (hi * 2 ^ 32 + lo)) in
      ((mmio_write net lo (low_reg ring) 4 >>= λ r. mmio_write r.0 hi (high_reg ring) 4) w
        ≡ done (set, 0) w)
      × ((mmio_write net hi (high_reg ring) 4 >>= λ r. mmio_write r.0 lo (low_reg ring) 4) w
          ≡ done (set, 0) w)
write_address ring net lo hi w sel fits lo_fits hi_fits =
    let old = queue_get-selected net sel (address ring) in
    let old_fits : queue_get net (address ring) < 2 ^ 64 = rw old fits in
    (
      rw (
        low_half ring net lo w,
        queue_set-selected net sel,
        high_half ring (set_to ring net sel _) hi w,
        one_half ring net sel _ with_high hi,
        low_then_high _ lo hi old_fits lo_fits hi_fits,
      ),
      rw (
        high_half ring net hi w,
        queue_set-selected net sel,
        low_half ring (set_to ring net sel _) lo w,
        one_half ring net sel _ with_low lo,
        high_then_low _ lo hi old_fits lo_fits hi_fits,
      ),
    )
