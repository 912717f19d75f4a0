-- ===== src/Pkm/Threads.antt =====
-- The threads of a launcher at one container of pkm_main.c: each is outside of the module, in the loop
-- of `pkm_cntr_ioctl_start` for a processor, or waits there in a halt. They take turns by rounds of
-- the loop and by requests.
pub mod Entries
pub mod Owners
pub mod Rounds
pub mod Exclusion
use cki_artifact.Base.{ℕ, ℤ, ◌≡◌, List, [], ◌∷◌, ◌++◌}
use cki_artifact.Pkm.Abi.{Request, StartArgs}
use cki_artifact.Pkm.State.{Cntr, update}
use cki_artifact.Pkm.World.{Kernel, World, Resource, done, pure, ◌>>=◌}
use cki_artifact.Pkm.Start.{
  Exit, running, halted, returned, rounds, cntr_ioctl_start, after_halt, handle_rkcall_halt,
  after_serve,
}
use cki_artifact.Pkm.Ioctl.{cntr_ioctl}
use cki_artifact.Pkm.Lifetime.{lost_by}

-- Where a thread is: `ret` is that of its loop.
pub data Place : Type 0 where
  outside : Place
  inside : (cpu : ℕ) → StartArgs → (ret : ℕ) → Place
  waiting : (cpu : ℕ) → StartArgs → Place

-- The container, the world and the threads by number.
pub record Threads : Type 0 where
  pub cntr : Cntr
  pub world : World
  pub place : ℕ → Place

-- A turn of thread `t`, with the eventfds that it overwrites.
pub data Turn (k : Kernel) (s : Threads) : List Resource → Threads → Type 0 where
  -- A start that finds its processor free gets to the head of the loop.
  starts :
      (t garbage ret : ℕ) (c : Cntr) (w : World)
      → s.place t ≡ outside
      → cntr_ioctl_start k s.cntr garbage [] s.world ≡ done (running c ret) w
      → Turn k s [] (
          let args = (k.copy_start_args s.world.log).1 in
          record { cntr = c; world = w; place = update s.place t (inside args.cpu args ret) })
  -- One round, after which the thread is at the head of the loop, in a halt, or outside.
  continues :
      (t i ret ret' : ℕ) (args : StartArgs) (ex : Exit) (c : Cntr) (w : World)
      → s.place t ≡ inside i args ret
      → rounds k s.cntr i args ret (ex ∷ []) s.world ≡ done (running c ret') w
      → Turn k s [] (record { cntr = c; world = w; place = update s.place t (inside i args ret') })
  halts :
      (t i ret : ℕ) (args : StartArgs) (ex : Exit) (c : Cntr) (w : World)
      → s.place t ≡ inside i args ret
      → rounds k s.cntr i args ret (ex ∷ []) s.world ≡ done (halted c) w
      → Turn k s [] (record { cntr = c; world = w; place = update s.place t (waiting i args) })
  -- A halt goes on, where calls of `virtio_wakeup` come in, and its round ends.
  resumes :
      (t i late ret : ℕ) (args : StartArgs) (wakeups : List ℕ) (c : Cntr) (w : World)
      → s.place t ≡ waiting i args
      → (after_halt s.cntr i (handle_rkcall_halt i (s.cntr.cpu i).virtio_event_cnt wakeups)
            >>= after_serve k i late λ c' ret'. pure (running c' ret'))
          s.world
        ≡ done (running c ret) w
      → Turn k s [] (record { cntr = c; world = w; place = update s.place t (inside i args ret) })
  leaves :
      (t i ret : ℕ) (args : StartArgs) (ex : Exit) (r : ℤ) (c : Cntr) (w : World)
      → s.place t ≡ inside i args ret
      → rounds k s.cntr i args ret (ex ∷ []) s.world ≡ done (returned r c) w
      → Turn k s [] (record { cntr = c; world = w; place = update s.place t outside })
  -- A start that is refused, or any other request.
  asks :
      (t garbage : ℕ) (req : Request) (r : ℤ) (c : Cntr) (w : World)
      → s.place t ≡ outside
      → cntr_ioctl k req s.cntr garbage [] s.world ≡ done (returned r c) w
      → Turn k s (lost_by k req s.cntr s.world r) (record { cntr = c; world = w; place = s.place })

-- Turns one after the other, with what they overwrite.
pub data Turns (k : Kernel) (s : Threads) : List Resource → Threads → Type 0 where
  begin : Turns k s [] s
  turn :
      {lost more : List Resource} {q r : Threads}
      → Turns k s lost q
      → Turn k q more r
      → Turns k s (more ++ lost) r
