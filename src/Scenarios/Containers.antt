-- ===== src/Scenarios/Containers.antt =====
-- The theorems about the creation and the release of a container at a kernel that grants all.
use cki_artifact.Base.{ℕ, ◌≡◌, refl, arith, if◌then◌else◌, ◌==◌, pos, none, some, [], ◌∷◌}
use cki_artifact.Pkm.State.{Cntr}
use cki_artifact.Pkm.World.{Kernel, World, Log, Run, done, oops, spin, fd, file}
use cki_artifact.Pkm.Balance.{Holds}
use cki_artifact.Pkm.Laws.{PageLaws}
use cki_artifact.Pkm.Boot.{with_boot_params}
use cki_artifact.Pkm.Create.{Created, create_cntr, cntr_release}
use cki_artifact.Pkm.Create.Settled.{with_params, IsLive, Ends}
use cki_artifact.Pkm.Create.Balance.{create_cntr-Settled}
use cki_artifact.Pkm.Create.Release.{efds, Gives, cntr_release-Gives, cntr_release-create_cntr}
use cki_artifact.Scenarios.{device, queue, cntr, world, kernel}
use cki_artifact.Scenarios.Runs.{kernel-PageLaws}

-- Three huge pages, at different addresses.
abbrev pub granting : Kernel
granting = record kernel {
  copy_cntr_args =
      λ _. (0, record { mem = 1; mem2 = 2; initrd = 3; initrd_size = 0; ip = ""; subcmd = "" });
}

pub granting-PageLaws : PageLaws granting
granting-PageLaws = record {
  aligned = kernel-PageLaws.aligned;
  fresh = kernel-PageLaws.fresh;
  phys_aligned = kernel-PageLaws.phys_aligned;
  phys_fits = kernel-PageLaws.phys_fits;
  direct_map = kernel-PageLaws.direct_map;
}

create_cntr-Settled_example : Ends granting [] (create_cntr granting world)
create_cntr-Settled_example = create_cntr-Settled granting world granting-PageLaws

abbrev pub world_of : Run Created → World
world_of (done r w) = w
world_of (oops w) = w
world_of (spin w) = w

abbrev pub created_of : Run Created → Created
created_of (done r w) = r
created_of _ = record { result = pos 0; cntr = none }

abbrev pub cntr_of : Created → Cntr
cntr_of r = elim r.cntr [ none ↦ cntr | some c ↦ c ]

abbrev new_cntr : Cntr
new_cntr = cntr_of (created_of (create_cntr granting world))

abbrev new_world : World
new_world = world_of (create_cntr granting world)

created : create_cntr granting world ≡ done (created_of (create_cntr granting world)) new_world
unfolding create_cntr
created = refl

behind_file : (created_of (create_cntr granting world)).cntr ≡ some new_cntr
unfolding create_cntr
behind_file = refl

cntr_release-create_cntr_example :
    (n f : ℕ) × (log : Log) × ((created_of (create_cntr granting world)).result ≡ pos n)
    × (cntr_release granting new_cntr new_world ≡ done tt (record new_world { log = log }))
    × Holds [] log (file f ∷ fd n ∷ [])
cntr_release-create_cntr_example =
    cntr_release-create_cntr granting world new_world (created_of (create_cntr granting world))
      new_cntr granting-PageLaws created behind_file

-- A container in memory whose first queue has its eventfds.
abbrev live : Cntr
live = record cntr {
  boot_pgtbl = 4096;
  boot_params = 12288;
  cpus = 88;
  virtio_net = record device {
    queues = λ i. if i == 0 then record queue { kick = 5; call = 6 } else queue;
  };
}

abbrev live_world : World
live_world = record world {
  mem = λ a. if a == 4096 then 8195 else 0;
  params = λ _. with_boot_params granting live 16384 granting.host_boot_params;
}

live-IsLive : IsLive granting live_world live 8192 16384
live-IsLive = record {
  made_for = live;
  there = λ e. absurd (omega (arith, e));
  cpus_there = λ e. absurd (omega (arith, e));
  table = record {
    there = λ e. absurd (omega (arith, e));
    pud_there = λ e. absurd (omega (arith, e));
    low = refl;
    fits = omega arith;
    direct = refl;
    points = refl;
  };
  params = record {
    there = λ e. absurd (omega (arith, e));
    cmdline_there = λ e. absurd (omega (arith, e));
    fits = omega arith;
    direct = refl;
    written = refl;
  };
}

cntr_release-Gives_example :
    (log : Log) × (cntr_release granting live live_world
      ≡ done tt (record live_world { log = log }))
    × Gives [] log (
        efds
          (live.virtio_net.queues 0)
          (efds (live.virtio_net.queues 1) (with_params live 8192 16384)))
cntr_release-Gives_example = cntr_release-Gives granting live 8192 16384 live_world live-IsLive
