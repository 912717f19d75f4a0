-- ===== src/Launcher/Tap/Settled.antt =====
-- What `tap_open` does with a descriptor that it has opened.
use Prim.Native.String.{String}
use cki_artifact.Base.{
  ℕ, ◌⊎◌, inl, inr, ◌≡◌, refl, Bool, true, false, not, ◌&&◌, if◌then◌else◌, if_cases, bit_and,
  bit_or, ℤ, neg, ◌∷◌, Bool-cases,
}
use cki_artifact.Launcher.System.{
  Os, Log, Run, Sys, done, call, close, set_nonblock, tun_set_iff, tun_set_vnet_hdr_sz,
}
use cki_artifact.Launcher.Tap.{
  Tap, fail, set_iff, add_queues, add_vnet_hdr, has, is_zero, iff_multi_queue, iff_vnet_hdr,
  iff_one_queue, iff_tap_no_pi,
}

-- The log with the request for the size of the packet header on top, where a header was asked for.
abbrev pub with_size : (fd : ℤ) (vnet_hdr : Bool) → Log → Log
with_size fd vnet_hdr log = if vnet_hdr then tun_set_vnet_hdr_sz fd 10 ∷ log else log

-- The interface's flags: no packet information, one queue where the device can, the packet header
-- where it was asked for and the device can, and several queues where they are required.
pub record FlagsAre (features flags : ℕ) (vnet_hdr mq : Bool) : Type 0 where
  pub tap_no_pi : bit_and flags iff_tap_no_pi ≡ iff_tap_no_pi
  pub one_queue : has flags iff_one_queue ≡ has features iff_one_queue
  pub header : has flags iff_vnet_hdr ≡ (vnet_hdr && has features iff_vnet_hdr)
  pub multi_queue : has flags iff_multi_queue ≡ mq

abbrev pub wanted : (one hdr mq : Bool) → ℕ
wanted one hdr mq =
    let first = (if one then bit_or iff_tap_no_pi iff_one_queue else iff_tap_no_pi) in
    let second = (if hdr then bit_or first iff_vnet_hdr else first) in
    if mq then bit_or second iff_multi_queue else second

wanted-bits :
    (one hdr mq : Bool)
    → (bit_and (wanted one hdr mq) iff_tap_no_pi ≡ iff_tap_no_pi)
      × (has (wanted one hdr mq) iff_one_queue ≡ one)
      × (has (wanted one hdr mq) iff_vnet_hdr ≡ hdr)
      × (has (wanted one hdr mq) iff_multi_queue ≡ mq)
wanted-bits true true true = (refl, refl, refl, refl)
wanted-bits true true false = (refl, refl, refl, refl)
wanted-bits true false true = (refl, refl, refl, refl)
wanted-bits true false false = (refl, refl, refl, refl)
wanted-bits false true true = (refl, refl, refl, refl)
wanted-bits false true false = (refl, refl, refl, refl)
wanted-bits false false true = (refl, refl, refl, refl)
wanted-bits false false false = (refl, refl, refl, refl)

-- A caller's wishes for the header and for several queues that the device cannot fulfil.
abbrev pub no_header : (features : ℕ) (vnet_hdr required : Bool) → Bool
no_header features vnet_hdr required = vnet_hdr && (required && not (has features iff_vnet_hdr))

abbrev pub no_queues : (features : ℕ) (mq : Bool) → Bool
no_queues features mq = mq && not (has features iff_multi_queue)

module _ (os : Os) where
  -- With the descriptor `fd` open and the device's features read at `base`: a wish cannot be
  -- fulfilled, or the interface was refused, and it was closed and -1 returned; or all wishes can
  -- be, and it is returned, configured with the right flags and no longer blocking. Nothing else is
  -- called but the request for the header's size.
  pub data Settled (fd : ℤ) (base : Log) (features : ℕ) (vnet_hdr required mq : Bool) (r : Run Tap)
      : Type 0 where
    unfulfilled :
        (tap : Tap) (log : Log)
        → ((no_header features vnet_hdr required ≡ true) × (log ≡ base))
          ⊎ ((no_queues features mq ≡ true) × (log ≡ with_size fd vnet_hdr base))
        → tap.fd ≡ neg 1
        → r ≡ done tap (close fd ∷ log)
        → Settled fd base features vnet_hdr required mq r
    no_interface :
        (tap : Tap) (flags : ℕ) (name : String) (log : Log)
        → is_zero (os.answer log (tun_set_iff fd flags name)) ≡ false
        → FlagsAre features flags vnet_hdr mq
        → log ≡ with_size fd vnet_hdr base
        → tap.fd ≡ neg 1
        → r ≡ done tap (close fd ∷ tun_set_iff fd flags name ∷ log)
        → Settled fd base features vnet_hdr required mq r
    ready :
        (tap : Tap) (flags : ℕ) (name : String) (log : Log)
        → is_zero (os.answer log (tun_set_iff fd flags name)) ≡ true
        → FlagsAre features flags vnet_hdr mq
        → log ≡ with_size fd vnet_hdr base
        → no_header features vnet_hdr required ≡ false
        → no_queues features mq ≡ false
        → tap.fd ≡ fd
        → tap.vnet_hdr ≡ (vnet_hdr && has features iff_vnet_hdr)
        → r ≡ done tap (set_nonblock fd ∷ tun_set_iff fd flags name ∷ log)
        → Settled fd base features vnet_hdr required mq r

  module _ (fd : ℤ) (base : Log) (features : ℕ) where
    abbrev one : Bool
    one = has features iff_one_queue

    abbrev hdr : Bool
    hdr = has features iff_vnet_hdr

    fail-Settled :
        (vnet_hdr required mq v : Bool) (ifname : String) (log : Log)
        → ((no_header features vnet_hdr required ≡ true) × (log ≡ base))
          ⊎ ((no_queues features mq ≡ true) × (log ≡ with_size fd vnet_hdr base))
        → Settled fd base features vnet_hdr required mq (fail os fd v ifname log)
    unfolding fail call
    fail-Settled vnet_hdr required mq v ifname log why =
        unfulfilled (record { fd = neg 1; vnet_hdr = v; ifname = ifname }) log why refl refl

    set_iff-Settled :
        (size : ℕ) (vnet_hdr required mq : Bool) (ifname : String) (log : Log)
        → log ≡ with_size fd vnet_hdr base
        → no_header features vnet_hdr required ≡ false
        → no_queues features mq ≡ false
        → Settled fd base features vnet_hdr required mq
            (set_iff os fd (wanted one (vnet_hdr && hdr) mq) size (vnet_hdr && hdr) ifname log)
    unfolding set_iff call fail
    set_iff-Settled size vnet_hdr required mq ifname log on ok_hdr ok_mq =
        let h = vnet_hdr && hdr in
        let flags = wanted one h mq in
        let (no_pi, one_queue, header, multi) = wanted-bits one h mq in
        let are : FlagsAre features flags vnet_hdr mq = record {
          tap_no_pi = no_pi;
          one_queue = one_queue;
          header = header;
          multi_queue = multi;
        } in
        let name = os.strncpy (if os.is_empty ifname then "tap%d" else ifname) 16 in
        let log' = tun_set_iff fd flags name ∷ log in
        if_cases (Settled fd base features vnet_hdr required mq)
          (is_zero (os.answer log (tun_set_iff fd flags name)))
          (λ zero.
            ready
              (record { fd = fd; vnet_hdr = h; ifname = os.strncpy (os.iff_name log' name) size })
              flags name log zero are on ok_hdr ok_mq refl refl refl)
          λ bad.
            no_interface (record { fd = neg 1; vnet_hdr = h; ifname = ifname }) flags name log bad
              are on refl refl

    add_queues-Settled :
        (size : ℕ) (vnet_hdr required mq : Bool) (ifname : String) (log : Log)
        → log ≡ with_size fd vnet_hdr base
        → no_header features vnet_hdr required ≡ false
        → Settled fd base features vnet_hdr required mq (
            add_queues os fd features
              (wanted one (vnet_hdr && hdr) false)
              size
              (vnet_hdr && hdr)
              mq
              ifname
              log)
    unfolding add_queues
    add_queues-Settled size vnet_hdr required true ifname log on ok_hdr =
        elim (Bool-cases (has features iff_multi_queue)) [
          | inl e ↦
              rw e (set_iff-Settled size vnet_hdr required true ifname log on ok_hdr (rw e refl))
          | inr e ↦ rw e (
              fail-Settled vnet_hdr required true (vnet_hdr && hdr) ifname log
                (inr (rw e refl, on)))
        ]
    add_queues-Settled size vnet_hdr required false ifname log on ok_hdr =
        set_iff-Settled size vnet_hdr required false ifname log on ok_hdr refl

    pub add_vnet_hdr-Settled :
        (size : ℕ) (vnet_hdr required mq : Bool) (ifname : String)
        → Settled fd base features vnet_hdr required mq (
            add_vnet_hdr os fd features
              (wanted one false false)
              size
              vnet_hdr
              required
              mq
              ifname
              base)
    unfolding add_vnet_hdr call
    add_vnet_hdr-Settled size true required mq ifname =
        if_cases (λ (m : Sys Tap). Settled fd base features true required mq (m base))
          (required && not hdr)
          (λ bad. fail-Settled true required mq hdr ifname base (inl (bad, refl)))
          λ ok.
            add_queues-Settled size true required mq ifname (tun_set_vnet_hdr_sz fd 10 ∷ base) refl
              ok
    add_vnet_hdr-Settled size false required mq ifname =
        add_queues-Settled size false required mq ifname base refl refl
