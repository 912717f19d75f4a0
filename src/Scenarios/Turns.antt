-- ===== src/Scenarios/Turns.antt =====
-- Two threads at one container: the first starts a processor, the second is refused the same one,
-- and the first leaves when the container asks for its end.
use cki_artifact.Base.{ℕ, ◌≡◌, refl, arith, [], ◌∷◌, pos}
use cki_artifact.Pkm.Abi.{cntr_start, eagain}
use cki_artifact.Pkm.State.{update}
use cki_artifact.Pkm.World.{Run, done}
use cki_artifact.Pkm.Start.{Finish, running, returned, rounds, cntr_ioctl_start}
use cki_artifact.Pkm.Ioctl.{cntr_ioctl}
use cki_artifact.Pkm.Threads.{
  Place, outside, inside, Threads, Turns, starts, leaves, asks, begin, turn,
}
use cki_artifact.Pkm.Threads.Exclusion.{IsExclusive, Turns-IsExclusive}
use cki_artifact.Scenarios.{kernel, cntr, world, start_on_second}
use cki_artifact.Scenarios.Lifetimes.{ending, after, cntr_after}

abbrev begun : Run Finish
begun = cntr_ioctl_start kernel cntr 0 [] world

abbrev refused : Run Finish
refused = cntr_ioctl kernel cntr_start (cntr_after begun) 0 [] (after begun)

abbrev ended : Run Finish
ended = rounds kernel (cntr_after refused) 1 start_on_second 0 (ending ∷ []) (after refused)

abbrev place1 : ℕ → Place
place1 = update (λ _. outside) 0 (inside 1 start_on_second 0)

begun_done : begun ≡ done (running (cntr_after begun) 0) (after begun)
unfolding cntr_ioctl_start
begun_done = refl

refused_done : refused ≡ done (returned eagain (cntr_after refused)) (after refused)
unfolding cntr_ioctl
refused_done = refl

ended_done : ended ≡ done (returned (pos 0) (cntr_after ended)) (after ended)
unfolding cntr_ioctl
ended_done = refl

abbrev at_end : Threads
at_end = record { cntr = cntr_after ended; world = after ended; place = update place1 0 outside }

two-Turns : Turns kernel (record { cntr = cntr; world = world; place = λ _. outside }) [] at_end
two-Turns =
    turn
      (turn (turn begin (starts 0 0 0 (cntr_after begun) (after begun) refl begun_done))
        (asks 1 0 cntr_start eagain (cntr_after refused) (after refused) refl refused_done))
      (leaves 0 1 0 start_on_second ending (pos 0) (cntr_after ended) (after ended) refl ended_done)

Turns-IsExclusive_example : IsExclusive cntr at_end
Turns-IsExclusive_example =
    Turns-IsExclusive kernel cntr world [] at_end (omega arith) tt (λ i. refl) two-Turns
