-- ===== src/Scenarios/Drivers.antt =====
-- The theorems about the container's kernel and its driver at small inputs.
use cki_artifact.Base.{
  ℕ, ◌+◌, ◌*◌, ◌^◌, ◌≡◌, ◌≢◌, ◌⊎◌, refl, arith, false, ◌==◌, if◌then◌else◌, pos, [], ◌∷◌, ◌++◌,
}
use cki_artifact.Pkm.Abi.{CntrArgs, VringArgs, exit_vring_ready}
use cki_artifact.Pkm.World.{Kernel, World, Run, done, oops, spin, pure, ◌>>=◌, vring_reply, to_user}
use cki_artifact.Pkm.Boot.{create_boot_params}
use cki_artifact.Pkm.Mmio.{mmio_read, mmio_write}
use cki_artifact.Pkm.Mmio.Ring.{desc, low_reg, high_reg, address}
use cki_artifact.Pkm.Start.{serve, call_of, reply, leave_with}
use cki_artifact.Pkm.Vring.{cntr_ioctl_get_vring_info}
use cki_artifact.Pkm.Vring.Ready.{told, get_vring_info-write_address}
use cki_artifact.Guest.{
  Guest, rkcall_slow, mcall_nopkru, Registered, pk_init, pk_register_event_handler,
  pk_handle_events, pk_mmio_read, pk_mmio_write,
}
use cki_artifact.Guest.Boot.{Knows, pk_init-create_boot_params}
use cki_artifact.Guest.Events.{IsPacked, call_for, pk_register_event_handler-handled}
use cki_artifact.Guest.Calls.{calling, serve-calling}
use cki_artifact.Scenarios.{cntr, world, kernel, start_on_second, no_ring}

abbrev no_args : CntrArgs
no_args = record { mem = 0; mem2 = 0; initrd = 0; initrd_size = 0; ip = ""; subcmd = "" }

-- A kernel that has just been loaded, with one handler for the event 4.
abbrev pub guest : Guest
guest = record {
  pk_cntr_flag = false;
  pcid = 0;
  rk_cr3 = 0;
  n_cpus = 0;
  cpu0_rk_ctx = 0;
  rk_ctx = 0;
  per_cpu_init_done = false;
  rkcall_fn = rkcall_slow;
  mcall_fn = mcall_nopkru;
  event_registry = λ i.
      if i == 0
      then record { event = 4; handler = 100; arg = 1 }
      else record { event = 0; handler = 0; arg = 0 };
}

abbrev world_of : Run ℕ → World
world_of (done r w) = w
world_of (oops w) = w
world_of (spin w) = w

abbrev booted : World
booted = world_of (create_boot_params kernel cntr no_args world)

boots : create_boot_params kernel cntr no_args world ≡ done 4096 booted
unfolding create_boot_params
boots = refl

pk_init-create_boot_params_example : Knows kernel cntr (pk_init (booted.params 4096) guest)
pk_init-create_boot_params_example =
    pk_init-create_boot_params kernel cntr no_args world booted 4096 guest (omega arith) refl boots
      λ e. absurd (omega (arith, e))

abbrev timer : Registered
timer = record { event = 2; handler = 200; arg = 7 }

pk_register_event_handler-handled_example :
    IsPacked (pk_register_event_handler timer guest)
    × ((((guest.event_registry 1).event ≡ 0)
          × (pk_handle_events 6 (pk_register_event_handler timer guest)
              ≡ pk_handle_events 6 guest ++ call_for 6 timer))
        ⊎ (((guest.event_registry 1).event ≢ 0) × (pk_register_event_handler timer guest ≡ guest)))
pk_register_event_handler-handled_example =
    pk_register_event_handler-handled timer 6 guest (omega arith) (omega arith)
      (λ e. absurd (omega (arith, e))) λ e. refl

serve-calling_example :
    (serve kernel
        (calling cntr 0 (pk_mmio_read 0xfed00070 108))
        0
        start_on_second
        5
        []
        (call_of (pk_mmio_read 0xfed00070 108).n)
        world
      ≡ (mmio_read cntr.virtio_net 0x70 4 >>= λ r.
            pure (reply r (calling cntr 0 (pk_mmio_read 0xfed00070 108))))
          world)
    × (serve kernel
          (calling cntr 0 (pk_mmio_write 1 0xfed00070 108))
          0
          start_on_second
          5
          []
          (call_of (pk_mmio_write 1 0xfed00070 108).n)
          world
        ≡ (mmio_write cntr.virtio_net 1 0x70 4 >>= λ (net, r).
              let c' = record (calling cntr 0 (pk_mmio_write 1 0xfed00070 108)) {
                virtio_net = net;
              } in
              if r == 0
              then pure (reply 0 c')
              else pure (
                  leave_with
                    (pos exit_vring_ready)
                    (record start_on_second { arg1 = net.queue_select })
                    c'))
            world)
serve-calling_example =
    serve-calling kernel cntr 0 5 start_on_second [] 0xfed00000 0x70 world 1 refl (omega arith)

-- The launcher asks for the selected queue.
abbrev asked : Kernel
asked = record kernel { copy_vring_args = λ _. (0, record no_ring { idx = 1 }) }

get_vring_info-write_address_example :
    (v : VringArgs) × (((mmio_write cntr.virtio_net 4096 (low_reg desc) 4 >>= λ r.
    mmio_write r.0 7 (high_reg desc) 4)
          >>= λ r'. cntr_ioctl_get_vring_info asked (record cntr { virtio_net = r'.0 }))
        world
      ≡ done (pos 0) (record world { log = to_user (vring_reply v) ∷ world.log }))
    × (told desc v ≡ 7 * 2 ^ 32 + 4096)
unfolding address
get_vring_info-write_address_example =
    get_vring_info-write_address asked cntr desc 4096 7 world (omega arith) (omega arith)
      (omega arith) (omega arith) refl refl refl
