-- ===== src/Launcher/Exits.antt =====
-- The exits that main.c serves, and the loop of a processor's thread.
use cki_artifact.Base.{ℕ, zero, suc, ◌==◌, Bool, false, if◌then◌else◌, u32, ℤ, pos, negsuc, ◌∷◌}
use cki_artifact.Pkm.Abi.{StartArgs, exit_cpu_up, exit_vring_ready, exit_print}
use cki_artifact.Launcher.System.{
  Os, Globals, Sys, pure, done, running, ◌>>=◌, ◌>>◌, call, checked, is_negative, exited, eventfd,
  pthread_create, printf, cntr_start, cntr_get_vring_info, cntr_set_vring_efds, vhost_set_vring_num,
  vhost_set_vring_base, vhost_set_vring_addr, vhost_set_backend, vhost_set_vring_kick,
  vhost_set_vring_call,
}
use cki_artifact.Launcher.Address.{phys2virt}

-- `r == n` for a result and a positive number.
abbrev is : ℤ → ℕ → Bool
is (pos r) n = r == n
is (negsuc _) n = false

-- `r == -EAGAIN`.
abbrev is_again : ℤ → Bool
is_again (pos _) = false
is_again (negsuc e) = e == 10

module _ (os : Os) where
  unfoldable pub handle_exit_cpu_up : (cpu : ℕ) → Sys (Unit {0})
  unfolding checked
  handle_exit_cpu_up cpu = do checked os (pthread_create cpu) "create percpu thread"; pure tt

  -- The rings of a queue go to vhost-net at the launcher's addresses.
  unfoldable pub set_vring : Globals → (idx : ℕ) → Sys (Unit {0})
  unfolding checked phys2virt
  set_vring g idx log =
      (do
        checked os (cntr_get_vring_info g.cntr_fd idx) "get vring info"
        let args = os.vring_args (cntr_get_vring_info g.cntr_fd idx ∷ log)
        checked os (vhost_set_vring_num g.vhost_net_fd idx args.size) "vhost set-vring-num"
        checked os (vhost_set_vring_base g.vhost_net_fd idx 0) "vhost set-vring-base"
        checked os
            (vhost_set_vring_addr g.vhost_net_fd idx (record {
              desc_user_addr = phys2virt g args.desc_table;
              avail_user_addr = phys2virt g args.avail_ring;
              used_user_addr = phys2virt g args.used_ring;
            }))
            "vhost set-vring-addr"
        pure tt)
        log

  -- The eventfds of a queue go to the kernel module and to vhost-net.
  unfoldable pub set_efds : Globals → (idx : ℕ) → Sys (Unit {0})
  unfolding checked
  set_efds g idx = do
    kick ← checked os eventfd "create kick eventfd"
    call ← checked os eventfd "create call eventfd"
    checked os (cntr_set_vring_efds g.cntr_fd idx kick call) "set vring efds"
    checked os (vhost_set_vring_kick g.vhost_net_fd idx kick) "vhost-net set-vring-kick"
    checked os (vhost_set_vring_call g.vhost_net_fd idx call) "vhost-net set-vring-call"
    pure tt

  unfoldable pub handle_exit_vring_ready : Globals → (idx : ℕ) → Sys (Unit {0})
  unfolding checked set_vring set_efds
  handle_exit_vring_ready g idx = do
    set_vring g idx
    checked os (vhost_set_backend g.vhost_net_fd idx g.tap_fd) "vhost-net set-backend"
    set_efds g idx

  unfoldable pub handle_exit_print : Globals → (buf_phys size : ℕ) → Sys (Unit {0})
  unfolding call phys2virt
  handle_exit_print g buf_phys size = do call os (printf size (phys2virt g buf_phys)); pure tt

  -- `percpu_routine`, for a number of rounds of its loop. The module writes `args` back.
  unfoldable pub percpu_routine : Globals → (rounds : ℕ) → StartArgs → Sys (Unit {0})
  unfolding call is_negative handle_exit_cpu_up handle_exit_vring_ready handle_exit_print
  percpu_routine g zero args log = running log
  percpu_routine g (suc n) args log =
      let log' = cntr_start g.cntr_fd args ∷ log in
      let r = os.answer log (cntr_start g.cntr_fd args) in
      let out = os.start_args log' args in
      let again = percpu_routine g n out in
      if is_again r
      then again log'
      else if is r exit_cpu_up
      then (handle_exit_cpu_up (u32 out.arg1) >> again) log'
      else if is r exit_vring_ready
      then (handle_exit_vring_ready g (u32 out.arg1) >> again) log'
      else if is r exit_print
      then (handle_exit_print g out.arg1 (u32 out.arg2) >> again) log'
      else if is_negative r
      then exited "start cntr" log'
      else done tt log'
