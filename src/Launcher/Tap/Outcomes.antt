-- ===== src/Launcher/Tap/Outcomes.antt =====
-- How `tap_open` can end.
use Prim.Native.String.{String}
use cki_artifact.Base.{
  ℕ, zero, suc, ◌<◌, ◌⊎◌, inl, inr, negsuc, arith, ◌≡◌, refl, Bool, true, false, ◌&&◌,
  if◌then◌else◌, if_cases, ℤ, neg, ◌∷◌, ◌==◌,
}
use cki_artifact.Launcher.System.{
  Os, Log, Run, done, running, is_negative, open_file, tun_get_features,
}
use cki_artifact.Launcher.Tap.{Tap, open_tun, tap_open, is_minus_one, eintr}
use cki_artifact.Launcher.Tap.Settled.{Settled, add_vnet_hdr-Settled}

-- The log with a number of attempts to open the device on top.
abbrev pub tries : ℕ → Log → Log
tries zero log = log
tries (suc n) log = tries n (open_file "/dev/net/tun" ∷ log)

module _ (os : Os) where
  -- Each of the next attempts is interrupted, and so opens nothing.
  abbrev pub Interrupted : ℕ → Log → Type 0
  Interrupted zero log = Unit
  Interrupted (suc n) log =
      let log' = open_file "/dev/net/tun" ∷ log in
      (is_minus_one (os.answer log (open_file "/dev/net/tun")) ≡ true)
      × ((os.errno log' == eintr) ≡ true)
      × Interrupted n log'

  -- How `tap_open` can end, after `n` attempts that were interrupted: no more are left, the next
  -- one failed, or its descriptor is settled.
  pub data Opened (attempts : ℕ) (start : Log) (vnet_hdr required mq : Bool) (r : Run Tap)
      : Type 0 where
    retrying :
        Interrupted attempts start
        → r ≡ running (tries attempts start)
        → Opened attempts start vnet_hdr required mq r
    refused :
        (n : ℕ) (tap : Tap)
        → n < attempts
        → Interrupted n start
        → is_negative (os.answer (tries n start) (open_file "/dev/net/tun")) ≡ true
        → tap.fd ≡ neg 1
        → r ≡ done tap (open_file "/dev/net/tun" ∷ tries n start)
        → Opened attempts start vnet_hdr required mq r
    opened :
        (n : ℕ) (fd : ℤ) (features : ℕ)
        → n < attempts
        → Interrupted n start
        → os.answer (tries n start) (open_file "/dev/net/tun") ≡ fd
        → is_negative fd ≡ false
        → features ≡ (
            if is_minus_one
              (os.answer (open_file "/dev/net/tun" ∷ tries n start) (tun_get_features fd))
            then 0
            else os.tun_features (tun_get_features fd ∷ open_file "/dev/net/tun" ∷ tries n start))
        → Settled os fd
            (tun_get_features fd ∷ open_file "/dev/net/tun" ∷ tries n start)
            features
            vnet_hdr
            required
            mq
            r
        → Opened attempts start vnet_hdr required mq r

  abbrev Attempted : (attempts : ℕ) → Log → Run ℤ → Type 0
  Attempted attempts log r =
      (Interrupted attempts log × (r ≡ running (tries attempts log)))
      ⊎ ((n : ℕ) × (n < attempts)
          × Interrupted n log
          × (r
              ≡ done (os.answer (tries n log) (open_file "/dev/net/tun"))
                  (open_file "/dev/net/tun" ∷ tries n log)))

  -- One more attempt before these was interrupted.
  Attempted-suc :
      (attempts : ℕ) (log : Log) (r : Run ℤ)
      → is_minus_one (os.answer log (open_file "/dev/net/tun")) ≡ true
      → (os.errno (open_file "/dev/net/tun" ∷ log) == eintr) ≡ true
      → Attempted attempts (open_file "/dev/net/tun" ∷ log) r
      → Attempted (suc attempts) log r
  Attempted-suc attempts log r failed again (inl (all, e)) = inl ((failed, again, all), e)
  Attempted-suc attempts log r failed again (inr (n, lt, all, e)) =
      inr (suc n, omega (arith, lt), (failed, again, all), e)

  both : (a b : Bool) → (a && b) ≡ true → (a ≡ true) × (b ≡ true)
  both true true e = (refl, refl)
  both true false e = absurd (cc e)
  both false b e = absurd (cc e)

  open_tun-Attempted :
      (attempts : ℕ) (log : Log) → Attempted attempts log (open_tun os attempts log)
  unfolding open_tun
  open_tun-Attempted zero log = inl (tt, refl)
  open_tun-Attempted (suc n) log =
      let log' = open_file "/dev/net/tun" ∷ log in
      let failed = is_minus_one (os.answer log (open_file "/dev/net/tun")) in
      if_cases (Attempted (suc n) log) (failed && (os.errno log' == eintr))
        (λ e.
          let (a, b) = both failed (os.errno log' == eintr) e in
          Attempted-suc n log (open_tun os n log') a b (open_tun-Attempted n log'))
        λ _. inr (0, omega arith, tt, refl)

  -- Whatever the system answers, tap_open ends in one of these ways. Its attempts are used up, each
  -- interrupted; or, after some that were interrupted, one was answered with an error, and -1 is
  -- returned; or one was answered with a descriptor, and the device's features are read. Then the
  -- descriptor is closed last, and -1 returned, where a header was asked for and required, or
  -- several queues were required, and the device does not have them, or where the device refuses
  -- the interface, asked for with the flags that fit the wishes and the features; or no such wish
  -- is left, the interface was set with these flags, and the descriptor is returned, made
  -- non-blocking last. In between just the size of the packet header is set, where a header was
  -- asked for and none is missing that is required; so no descriptor stays open that is not
  -- returned.
  pub tap_open-Opened :
      (attempts size : ℕ) (vnet_hdr required mq : Bool) (ifname : String) (log : Log)
      → Opened attempts log vnet_hdr required mq
          (tap_open os attempts size vnet_hdr required mq ifname log)
  unfolding tap_open
  tap_open-Opened attempts size vnet_hdr required mq ifname log =
      elim (open_tun-Attempted attempts log) [
        | inl (all, e) ↦ rw e (retrying all refl)
        | inr (n, lt, all, e) ↦
            let fd = os.answer (tries n log) (open_file "/dev/net/tun") in
            let log₁ = open_file "/dev/net/tun" ∷ tries n log in
            let log' = tun_get_features fd ∷ log₁ in
            let features =
              if is_minus_one (os.answer log₁ (tun_get_features fd))
              then 0
              else os.tun_features log' in
            rw e (
              if_cases (Opened attempts log vnet_hdr required mq) (is_negative fd)
                (λ neg.
                  refused n (record { fd = negsuc 0; vnet_hdr = vnet_hdr; ifname = ifname }) lt all
                    neg refl refl)
                λ ok.
                  opened n fd features lt all refl ok refl
                    (add_vnet_hdr-Settled os fd log' features size vnet_hdr required mq ifname))
      ]
