-- ===== src/Scenarios/Runs.antt =====
-- The theorems of the other modules at concrete inputs.
use cki_artifact.Base.{
  ℕ, ◌+◌, ◌*◌, ◌^◌, ◌≡◌, ◌↔◌, ◌⊎◌, inl, inr, refl, arith, true, false, if◌then◌else◌, ◌==◌, List,
  [], ◌∷◌, none,
}
use cki_artifact.Pkm.State.{VirtioNet}
use cki_artifact.Pkm.World.{World, Log, page, acquire, release, done, ◌>>=◌}
use cki_artifact.Pkm.Laws.{PageLaws}
use cki_artifact.Pkm.Mmio.{
  mmio_write, mmio_read, mmio_write_device_status, queue_set, write_to, queue_size,
}
use cki_artifact.Pkm.Mmio.Negotiation.{write_statuses, nonzero_writes, write_statuses-live}
use cki_artifact.Pkm.Mmio.Ring.{desc, low_reg, high_reg, address, with_address, write_address}
use cki_artifact.Pkm.Mmio.Bounds.{mmio_write-untouched, mmio_read-in_bounds}
use cki_artifact.Pkm.Mmio.Invariant.{NetIsValid, write_to-NetIsValid}
use cki_artifact.Pkm.Memory.{mem_check, IsInPage, mem_check-IsInPage}
use cki_artifact.Pkm.Boot.{create_boot_pgtbl, free_boot_pgtbl}
use cki_artifact.Pkm.Boot.Pgtbl.{boot_mem}
use cki_artifact.Pkm.Boot.Identity.{create_boot_pgtbl-copied, free-create_boot_pgtbl}
use cki_artifact.Pkm.Start.{handle_rkcall_halt}
use cki_artifact.Pkm.Start.Wakeups.{delivered, handle_rkcall_halt-delivered}
use cki_artifact.Launcher.System
use cki_artifact.Launcher.System.{Os, Globals, vhost_set_backend}
use cki_artifact.Pkm.Create.{create_cntr}
use cki_artifact.Pkm.Create.Failures.{Ends}
use cki_artifact.Pkm.Create.Numbering.{create_cntr-Numbered}
use cki_artifact.Pkm.Vring.{cntr_ioctl_set_vring_efds}
use cki_artifact.Pkm.Vring.Balance.{Handed, cntr_ioctl_set_vring_efds-Handed}
use cki_artifact.Launcher.Address.{phys2virt, phys2virt-offset}
use cki_artifact.Launcher.Exits.{handle_exit_vring_ready}
use cki_artifact.Launcher.Tap.{tap_open}
use cki_artifact.Launcher.Tap.Outcomes.{Opened, tap_open-Opened}
use cki_artifact.Launcher.Wiring.{wired, NoErrors, Refused, handle_exit_vring_ready-wires}
use cki_artifact.Scenarios.{queue, device, cntr, world, page_of, kernel, os, globals}

page_of-cases : (log : Log) → (page_of log ≡ 4096) ⊎ (page_of log ≡ 8192)
page_of-cases [] = inl refl
page_of-cases (e ∷ log) = elim (page_of-cases log) [ inl h ↦ inr (rw h) | inr h ↦ inl (rw h) ]

pub kernel-PageLaws : PageLaws kernel
kernel-PageLaws = record {
  aligned = λ log. elim (page_of-cases log) [ inl h ↦ rw h | inr h ↦ rw h ];
  fresh = λ log. elim (page_of-cases log) [ inl h ↦ ground arith | inr h ↦ ground arith ];
  phys_aligned = λ log. elim (page_of-cases log) [ inl h ↦ rw h | inr h ↦ rw h ];
  phys_fits = λ log. elim (page_of-cases log) [ inl h ↦ omega arith | inr h ↦ omega arith ];
  direct_map = λ log. refl;
}

abbrev table_world : World
table_world = record world {
  log = acquire (page 8192) ∷ acquire (page 4096) ∷ [];
  mem = boot_mem kernel 4096 8192 world.mem;
}

create_boot_pgtbl-kernel : create_boot_pgtbl kernel world ≡ done 4096 table_world
unfolding create_boot_pgtbl
create_boot_pgtbl-kernel = refl

create_boot_pgtbl-copied_example : table_world.mem (4096 + 8 * 7) ≡ 0
create_boot_pgtbl-copied_example =
    create_boot_pgtbl-copied kernel kernel-PageLaws world table_world 4096 create_boot_pgtbl-kernel
      (omega arith) refl (omega arith) 7 (omega arith) (omega arith)

free-create_boot_pgtbl_example :
    free_boot_pgtbl kernel 4096 table_world
    ≡ done tt (record table_world {
      log =
          release (page 4096)
          ∷ release (page 8192)
          ∷ acquire (page 8192)
          ∷ acquire (page 4096)
          ∷ [];
    })
free-create_boot_pgtbl_example =
    free-create_boot_pgtbl kernel kernel-PageLaws world table_world 4096 create_boot_pgtbl-kernel
      (omega arith)

mem_check-IsInPage_example : (mem_check kernel cntr (2 ^ 30 + 5) ≡ false) ↔ (
    IsInPage kernel (2 ^ 30) (2 ^ 30 + 5)
    ⊎ IsInPage kernel (2 * 2 ^ 30) (2 ^ 30 + 5)
    ⊎ IsInPage kernel (3 * 2 ^ 30) (2 ^ 30 + 5))
mem_check-IsInPage_example =
    mem_check-IsInPage kernel cntr (2 ^ 30 + 5) (omega arith) (omega arith) (omega arith)

abbrev writes : List ℕ
writes = 1 ∷ 0 ∷ 3 ∷ 11 ∷ 15 ∷ []

writes-device :
    write_statuses writes device world ≡ done (record device { device_status = 15 }) world
unfolding write_statuses mmio_write_device_status
writes-device = refl

write_statuses-live_example : nonzero_writes writes ≡ 1 ∷ 3 ∷ 11 ∷ 15 ∷ []
write_statuses-live_example =
    write_statuses-live writes device (record device { device_status = 15 }) world world refl
      writes-device (inr (omega arith, omega arith))

write_address_example :
    let set = queue_set device (with_address desc (7 * 2 ^ 32 + 4096)) in
    ((mmio_write device 4096 (low_reg desc) 4 >>= λ r. mmio_write r.0 7 (high_reg desc) 4) world
      ≡ done (set, 0) world)
    × ((mmio_write device 7 (high_reg desc) 4 >>= λ r. mmio_write r.0 4096 (low_reg desc) 4) world
        ≡ done (set, 0) world)
unfolding address
write_address_example =
    write_address desc device 4096 7 world (omega arith) (omega arith) (omega arith) (omega arith)

device-NetIsValid : NetIsValid device
device-NetIsValid = record {
  status_fits = omega arith;
  offer = refl;
  acked_offered = refl;
  queues_valid = λ i. record {
    size_fits = omega arith;
    desc_fits = omega arith;
    avail_fits = omega arith;
    used_fits = omega arith;
  };
  max_sizes = λ i h. refl;
}

abbrev set_device : VirtioNet
set_device = queue_set device λ q. record q { size = 128 }

write-device : write_to queue_size device 128 world ≡ done (set_device, 0) world
unfolding write_to
write-device = refl

write_to-NetIsValid_example : NetIsValid set_device
write_to-NetIsValid_example =
    write_to-NetIsValid queue_size device set_device 128 0 world world device-NetIsValid
      (omega arith) write-device

mmio_write-device : mmio_write device 128 0x38 4 world ≡ done (set_device, 0) world
unfolding mmio_write
mmio_write-device = refl

mmio_write-untouched_example : set_device.queues 0 ≡ device.queues 0
mmio_write-untouched_example =
    mmio_write-untouched device set_device 128 0 0 world world (inl (omega arith)) 0x38 4
      mmio_write-device

mmio_read-in_bounds_example :
    mmio_read
      (record device { queues = λ i. if i == 2 then record queue { max_size = 9 } else queue })
      0x34
      4
      world
    ≡ mmio_read device 0x34 4 world
mmio_read-in_bounds_example =
    mmio_read-in_bounds device (λ i. if i == 2 then record queue { max_size = 9 } else queue) 0x34 4
      world refl refl

handle_rkcall_halt-delivered_example :
    (handle_rkcall_halt 1 0 (3 ∷ 4 ∷ []) ≡ none) ↔ (0 + delivered 1 (3 ∷ 4 ∷ []) ≡ 0)
handle_rkcall_halt-delivered_example = handle_rkcall_halt-delivered 1 0 (3 ∷ 4 ∷ []) (omega arith)

phys2virt-offset_example :
    (phys2virt globals (2 ^ 30 + 4096) ≡ 2 ^ 40 + 4096)
    × (phys2virt globals (2 ^ 31 + 4096) ≡ 2 ^ 41 + 4096)
phys2virt-offset_example =
    phys2virt-offset globals 4096 (omega arith) (omega arith) (omega arith) (omega arith)
      (inl (omega arith)) (omega arith)

handle_exit_vring_ready-wires_example :
    ((handle_exit_vring_ready os globals 0 [] ≡ System.done tt (wired os globals 0 []))
      × NoErrors os 10 (wired os globals 0 []))
    ⊎ Refused os (wired os globals 0 []) (handle_exit_vring_ready os globals 0 [])
handle_exit_vring_ready-wires_example = handle_exit_vring_ready-wires os globals 0 []

cntr_ioctl_set_vring_efds-Handed_example :
    Handed kernel cntr world (cntr_ioctl_set_vring_efds kernel cntr world)
cntr_ioctl_set_vring_efds-Handed_example = cntr_ioctl_set_vring_efds-Handed kernel cntr world

create_cntr-Numbered_example : Ends 10 (create_cntr kernel world)
create_cntr-Numbered_example = create_cntr-Numbered kernel world

tap_open-Opened_example :
    Opened os 1 [] true true false (tap_open os 1 128 true true false "tap0" [])
tap_open-Opened_example = tap_open-Opened os 1 128 true true false "tap0" []
