-- ===== src/Launcher/Wiring.antt =====
-- The whole of `handle_exit_vring_ready`: the calls that it makes, and how it can end.
use Prim.Native.String.{String}
use cki_artifact.Base.{
  ℕ, ◌≡◌, refl, zero, suc, ◌+◌, ◌⊎◌, inl, inr, true, false, Bool-cases, ℤ, [], ◌∷◌,
}
use cki_artifact.Launcher.System.{
  Os, Log, Call, Globals, VringAddr, Run, Sys, done, exited, and_then, checked, is_negative,
  eventfd, cntr_get_vring_info, cntr_set_vring_efds, vhost_set_vring_num, vhost_set_vring_base,
  vhost_set_vring_addr, vhost_set_backend, vhost_set_vring_kick, vhost_set_vring_call,
}
use cki_artifact.Launcher.Address.{phys2virt}
use cki_artifact.Launcher.Exits.{handle_exit_vring_ready, set_vring, set_efds}

-- A log without its `n` newest calls.
abbrev pub drop : ℕ → Log → Log
drop zero log = log
drop (suc n) [] = []
drop (suc n) (c ∷ log) = drop n log

module _ (os : Os) where
  -- None of the `n` newest calls of a log was answered with an error.
  abbrev pub NoErrors : ℕ → Log → Type 0
  NoErrors zero log = Unit
  NoErrors (suc n) [] = ⊥
  NoErrors (suc n) (c ∷ log) = (is_negative (os.answer log c) ≡ false) × NoErrors n log

  -- Of the ten newest calls of the log `full` the process has made just the `k` first, of which no
  -- answer was an error, and the one after them, and has ended as the answer to that is one.
  pub record Refused (full : Log) (r : Run (Unit {0})) : Type 0 where
    pub k : ℕ
    pub left : ℕ
    pub info : String
    pub c : Call
    pub log : Log
    pub ended : r ≡ exited info (c ∷ log)
    pub error : is_negative (os.answer log c) ≡ true
    pub no_errors : NoErrors k log
    pub initial : drop left full ≡ c ∷ log
    pub ten : k + 1 + left ≡ 10

  -- It ended so, or it has made just the calls of `mid`, the newest `k` without an error.
  abbrev Ends : (full mid : Log) (k : ℕ) → Run (Unit {0}) → Type 0
  Ends full mid k r = ((r ≡ done tt mid) × NoErrors k mid) ⊎ Refused full r

  checked-Ends :
      {full mid : Log} (n k left : ℕ) (c : Call) (info : String) (f : ℤ → Sys (Unit {0}))
      (log : Log)
      → NoErrors k log
      → drop left full ≡ c ∷ log
      → k + 1 + left ≡ 10
      → (NoErrors (suc k) (c ∷ log) → Ends full mid n (f (os.answer log c) (c ∷ log)))
      → Ends full mid n (and_then (checked os c info log) f)
  unfolding checked
  checked-Ends n k left c info f log none initial ten h =
      elim (Bool-cases (is_negative (os.answer log c))) [
        | inl e ↦ inr (record {
          k = k;
          left = left;
          info = info;
          c = c;
          log = log;
          ended = rw e;
          error = e;
          no_errors = none;
          initial = initial;
          ten = ten;
        })
        | inr e ↦ rw e (h (e, none))
      ]

  and_then-Ends :
      {full end : Log} (n : ℕ) (mid : Log) (k : ℕ) (r : Run (Unit {0}))
      (f : Unit {0} → Sys (Unit {0}))
      → Ends full mid k r
      → (NoErrors k mid → Ends full end n (f tt mid))
      → Ends full end n (and_then r f)
  and_then-Ends n mid k r f (inl (e, none)) h = rw e (h none)
  and_then-Ends n mid k r f (inr refused) h = inr (record {
    k = refused.k;
    left = refused.left;
    info = refused.info;
    c = refused.c;
    log = refused.log;
    ended = rw refused.ended;
    error = refused.error;
    no_errors = refused.no_errors;
    initial = refused.initial;
    ten = refused.ten;
  })

  -- What is asked of the kernel module and of vhost-net about the rings, newest first.
  abbrev pub rings_set : Globals → ℕ → Log → Log
  rings_set g idx log =
      let asked = cntr_get_vring_info g.cntr_fd idx ∷ log in
      let args = os.vring_args asked in
      let addr : VringAddr = record {
        desc_user_addr = phys2virt g args.desc_table;
        avail_user_addr = phys2virt g args.avail_ring;
        used_user_addr = phys2virt g args.used_ring;
      } in
      vhost_set_vring_addr g.vhost_net_fd idx addr
      ∷ vhost_set_vring_base g.vhost_net_fd idx 0
      ∷ vhost_set_vring_num g.vhost_net_fd idx args.size
      ∷ asked

  -- The calls about two new eventfds, of which both sides get each.
  abbrev pub efds_set : Globals → ℕ → Log → Log
  efds_set g idx log =
      let kick = os.answer log eventfd in
      let call = os.answer (eventfd ∷ log) eventfd in
      vhost_set_vring_call g.vhost_net_fd idx call
      ∷ vhost_set_vring_kick g.vhost_net_fd idx kick
      ∷ cntr_set_vring_efds g.cntr_fd idx kick call
      ∷ eventfd
      ∷ eventfd
      ∷ log

  -- The log once all ten calls about a queue were made.
  abbrev pub wired : Globals → ℕ → Log → Log
  wired g idx log =
      efds_set g idx (vhost_set_backend g.vhost_net_fd idx g.tap_fd ∷ rings_set g idx log)

  set_vring-Ends :
      (g : Globals) (idx : ℕ) (log : Log)
      → Ends (wired g idx log) (rings_set g idx log) 4 (set_vring os g idx log)
  unfolding set_vring
  set_vring-Ends g idx log = checked-Ends 4 0 9 _ _ _ _ tt refl refl λ a.
      checked-Ends 4 1 8 _ _ _ _ a refl refl λ b.
        checked-Ends 4 2 7 _ _ _ _ b refl refl
          λ c. checked-Ends 4 3 6 _ _ _ _ c refl refl λ d. inl (refl, d)

  set_efds-Ends :
      (g : Globals) (idx : ℕ) (log : Log)
      → let backed = vhost_set_backend g.vhost_net_fd idx g.tap_fd ∷ rings_set g idx log in
        NoErrors 5 backed → Ends (wired g idx log) (wired g idx log) 10 (set_efds os g idx backed)
  unfolding set_efds
  set_efds-Ends g idx log none = checked-Ends 10 5 4 _ _ _ _ none refl refl λ a.
      checked-Ends 10 6 3 _ _ _ _ a refl refl λ b. checked-Ends 10 7 2 _ _ _ _ b refl refl λ c.
        checked-Ends 10 8 1 _ _ _ _ c refl refl
          λ d. checked-Ends 10 9 0 _ _ _ _ d refl refl λ e. inl (refl, e)

  -- handle_exit_vring_ready returns after exactly ten calls, none of which was answered with an
  -- error, or it ends the process after an initial part of these ten, of which just the last call
  -- was answered with an error. The ten calls give vhost-net the queue's size, the launcher's
  -- addresses of its rings, the TAP device and two new eventfds, and the kernel module the same two
  -- eventfds in the same roles.
  pub handle_exit_vring_ready-wires :
      (g : Globals) (idx : ℕ) (log : Log)
      → ((handle_exit_vring_ready os g idx log ≡ done tt (wired g idx log))
          × NoErrors 10 (wired g idx log))
        ⊎ Refused (wired g idx log) (handle_exit_vring_ready os g idx log)
  unfolding handle_exit_vring_ready
  handle_exit_vring_ready-wires g idx log =
      and_then-Ends 10 (rings_set g idx log) 4 _ _ (set_vring-Ends g idx log) λ none.
        checked-Ends 10 4 5 _ _ _ (rings_set g idx log) none refl refl (set_efds-Ends g idx log)
