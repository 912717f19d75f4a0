-- ===== src/Scenarios/Lifetimes.antt =====
-- A container from its creation to its release.
use cki_artifact.Base.{ℕ, ◌+◌, ◌≡◌, refl, arith, u32, pos, some, List, [], ◌∷◌, ◌++◌}
use cki_artifact.Pkm.Rkcall
use cki_artifact.Pkm.Abi.{set_vring_efds}
use cki_artifact.Pkm.State.{Cntr, update}
use cki_artifact.Pkm.World.{Kernel, World, Log, Run, Resource, done, fd, file, eventfd, signal}
use cki_artifact.Pkm.Balance.{Holds}
use cki_artifact.Pkm.Laws.{PageLaws, NeverNull}
use cki_artifact.Pkm.Create.{Created, create_cntr, cntr_release}
use cki_artifact.Pkm.Start.{Exit, Finish, running, returned, rounds, cntr_ioctl_start}
use cki_artifact.Pkm.Mmio.{mmio_write}
use cki_artifact.Pkm.Vring.{cntr_ioctl_set_vring_efds}
use cki_artifact.Pkm.Vring.Balance.{IsFetched}
use cki_artifact.Pkm.Lifetime.Signals.{mmio_write-Turns}
use cki_artifact.Pkm.Ioctl.{cntr_ioctl}
use cki_artifact.Pkm.Threads.{
  Place, outside, inside, Threads, Turns, starts, leaves, asks, begin, turn,
}
use cki_artifact.Pkm.Lifetime.End.{cntr_release-Turns}
use cki_artifact.Scenarios.{cntr, world, yielding, start_on_second}
use cki_artifact.Scenarios.Containers.{granting, granting-PageLaws, world_of, created_of, cntr_of}

-- The lookup of an eventfd never answers with NULL, and each call finds another one.
abbrev looking : Kernel
looking = record granting { eventfd_ctx_fdget = λ _ n. pos (n + 1) }

looking-PageLaws : PageLaws looking
looking-PageLaws = record {
  aligned = granting-PageLaws.aligned;
  fresh = granting-PageLaws.fresh;
  phys_aligned = granting-PageLaws.phys_aligned;
  phys_fits = granting-PageLaws.phys_fits;
  direct_map = granting-PageLaws.direct_map;
}

looking-NeverNull : NeverNull looking
looking-NeverNull log n e = let z : n + 1 ≡ 0 = cc e in absurd (omega (arith, z))

abbrev pub cntr_after : Run Finish → Cntr
cntr_after (done (returned r c) w) = c
cntr_after (done (running c ret) w) = c
cntr_after _ = cntr

abbrev pub after : Run Finish → World
after (done f w) = w
after _ = world

abbrev made : Run Created
made = create_cntr looking world

abbrev c1 : Cntr
c1 = cntr_of (created_of made)

abbrev w1 : World
w1 = world_of made

-- The eventfds of the first queue are set twice. In between, a second thread starts a processor, and
-- it leaves at the end, when the container has written a word and asks for it.
abbrev pub ending : Exit
ending = record yielding {
  mem_left = λ m. update m 8 7;
  ctx = record yielding.ctx { pmode = record yielding.ctx.pmode { rdx = Rkcall.shutdown } };
}

abbrev run2 : Run Finish
run2 = cntr_ioctl looking set_vring_efds c1 0 [] w1

abbrev run3 : Run Finish
run3 = cntr_ioctl_start looking (cntr_after run2) 0 [] (after run2)

abbrev run4 : Run Finish
run4 = cntr_ioctl looking set_vring_efds (cntr_after run3) 0 [] (after run3)

abbrev run5 : Run Finish
run5 = rounds looking (cntr_after run4) 1 start_on_second 0 (ending ∷ []) (after run4)

made_done : made ≡ done (created_of made) w1
unfolding create_cntr
made_done = refl

behind_file : (created_of made).cntr ≡ some c1
unfolding create_cntr
behind_file = refl

run2_done : run2 ≡ done (returned (pos 0) (cntr_after run2)) (after run2)
unfolding cntr_ioctl create_cntr
run2_done = refl

run3_done : run3 ≡ done (running (cntr_after run3) 0) (after run3)
unfolding cntr_ioctl create_cntr
run3_done = refl

run4_done : run4 ≡ done (returned (pos 0) (cntr_after run4)) (after run4)
unfolding cntr_ioctl create_cntr
run4_done = refl

run5_done : run5 ≡ done (returned (pos 0) (cntr_after run5)) (after run5)
unfolding cntr_ioctl create_cntr
run5_done = refl

-- What the second request finds in the queue is lost.
abbrev lost_first : List Resource
lost_first = eventfd 6 ∷ eventfd 7 ∷ []

abbrev nowhere : ℕ → Place
nowhere = λ _. outside

abbrev started : ℕ → Place
started = update nowhere 1 (inside 1 start_on_second 0)

abbrev set_once : Threads
set_once = record { cntr = cntr_after run2; world = after run2; place = nowhere }

abbrev at_end : Threads
at_end = record { cntr = cntr_after run5; world = after run5; place = update started 1 outside }

later-Turns : Turns looking set_once lost_first at_end
unfolding cntr_ioctl create_cntr
later-Turns =
    turn
      (turn (turn begin (starts 1 0 0 (cntr_after run3) (after run3) refl run3_done))
        (asks 0 0 set_vring_efds (pos 0) (cntr_after run4) (after run4) refl run4_done))
      (leaves 1 1 0 start_on_second ending (pos 0) (cntr_after run5) (after run5) refl run5_done)

all-Turns : Turns looking (record { cntr = c1; world = w1; place = nowhere }) lost_first at_end
unfolding cntr_ioctl create_cntr
all-Turns =
    turn
      (turn
        (turn
          (turn begin
            (asks 0 0 set_vring_efds (pos 0) (cntr_after run2) (after run2) refl run2_done))
          (starts 1 0 0 (cntr_after run3) (after run3) refl run3_done))
        (asks 0 0 set_vring_efds (pos 0) (cntr_after run4) (after run4) refl run4_done))
      (leaves 1 1 0 start_on_second ending (pos 0) (cntr_after run5) (after run5) refl run5_done)

table_left : (after run5).mem c1.boot_pgtbl ≡ w1.mem c1.boot_pgtbl
unfolding cntr_ioctl create_cntr
table_left = refl

params_left : (after run5).params c1.boot_params ≡ w1.params c1.boot_params
unfolding cntr_ioctl create_cntr
params_left = refl

cntr_release-Turns_example :
    (n f : ℕ) × (log : Log) × ((created_of made).result ≡ pos n)
    × (cntr_release looking (cntr_after run5) (after run5)
        ≡ done tt (record (after run5) { log = log }))
    × Holds [] log (lost_first ++ file f ∷ fd n ∷ [])
cntr_release-Turns_example =
    cntr_release-Turns looking world w1 (created_of made) c1 lost_first at_end looking-PageLaws
      looking-NeverNull made_done behind_file all-Turns table_left params_left

set_done : cntr_ioctl_set_vring_efds looking c1 w1 ≡ done (pos 0, cntr_after run2) (after run2)
unfolding cntr_ioctl create_cntr
set_done = refl

named_first : u32 0 ≡ (looking.copy_vring_efds w1.log).1.idx
named_first = refl

-- The container notifies its first queue at the end.
mmio_write-Turns_example :
    (kick : ℕ) × IsFetched looking kick
    × (mmio_write (cntr_after run5).virtio_net 0 0x50 4 world
        ≡ done ((cntr_after run5).virtio_net, 0) (record world { log = signal kick ∷ [] }))
mmio_write-Turns_example =
    mmio_write-Turns looking c1 (cntr_after run2) w1 (after run2) world nowhere lost_first at_end 0
      looking-NeverNull set_done later-Turns named_first
