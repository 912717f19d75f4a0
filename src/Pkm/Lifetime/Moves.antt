-- ===== src/Pkm/Lifetime/Moves.antt =====
-- What a turn of a thread does to the container's resources and eventfds.
use cki_artifact.Base.{Option, ℕ, ℤ, List, [], ◌∷◌, ◌<◌, ◌≡◌, refl}
use mathlib.Core.Path.{subst}
use cki_artifact.Pkm.Abi.{Request, StartArgs}
use cki_artifact.Pkm.State.{Cntr, CntrCpu}
use cki_artifact.Pkm.World.{pure, ◌>>=◌, Kernel, World, Resource, eventfd, done}
use cki_artifact.Pkm.Balance.{Holds}
use cki_artifact.Pkm.Outcome.{Ensures, Ensures-result, Ensures-weaken}
use cki_artifact.Pkm.Start.{
  handle_rkcall_halt, after_halt, after_serve, Exit, Finish, running, halted, returned, rounds,
  cntr_ioctl_start, lock, unlock,
}
use cki_artifact.Pkm.Start.Effects.{Entered-any, Still-refl, Same}
use cki_artifact.Pkm.Start.Entry.{Ended, cntr_ioctl_start-Ended}
use cki_artifact.Pkm.Start.Rounds.{Finished, rounds-Finished, resumed-Finished}
use cki_artifact.Pkm.Create.Release.{efds}
use cki_artifact.Pkm.Vring.Balance.{with_efds, IsFetched}
use cki_artifact.Pkm.Threads.{Place, Threads, Turn, starts, continues, halts, resumes, leaves, asks}
use cki_artifact.Pkm.Lifetime.{lost_by}
use cki_artifact.Pkm.Lifetime.Requests.{Changed, kept, wired_up, cntr_ioctl-Changed, Still-Holds}

-- The same container, of the same pages and eventfds, whatever its processors have come to.
abbrev pub Kin : Cntr → Cntr → Type 0
Kin c c' = Same (record c { cpu = c'.cpu }) c'

Same-Kin : (c c' : Cntr) (cpu : ℕ → CntrCpu) → Same (record c { cpu = cpu }) c' → Kin c c'
Same-Kin c c' cpu same = record {
  self_same = same.self_same;
  pcid_same = same.pcid_same;
  mem_same = same.mem_same;
  mem2_same = same.mem2_same;
  initrd_same = same.initrd_same;
  pgtbl_same = same.pgtbl_same;
  params_same = same.params_same;
  cpus_same = same.cpus_same;
  wired = same.wired;
  lock_same = λ j. refl;
}

-- A turn has left the container's resources and what is held alone, or it has given the named queue
-- two eventfds, which are held on top.
pub data Moved (k : Kernel) (s : Threads) : List Resource → Threads → Type 0 where
  keeps : (q : Threads) → Kin s.cntr q.cntr → Holds s.world.log q.world.log [] → Moved k s [] q
  wires :
      (kick call : ℕ) (w : World) (place : ℕ → Place)
      → (k.copy_vring_efds s.world.log).1.idx < 2
      → IsFetched k kick
      → IsFetched k call
      → Holds s.world.log w.log (eventfd call ∷ eventfd kick ∷ [])
      → Moved k s
          (efds (s.cntr.virtio_net.queues (k.copy_vring_efds s.world.log).1.idx) [])
          (record {
            cntr = with_efds s.cntr (k.copy_vring_efds s.world.log).1.idx kick call;
            world = w;
            place = place;
          })

module _ (k : Kernel) (c : Cntr) (w : World) where
  abbrev Any : ℕ → ℕ → Type 0
  Any _ _ = Unit

  round_kept :
      (i ret : ℕ) (args : StartArgs) (exits : List Exit) (f : Finish) (w' : World)
      → rounds k c i args ret exits w ≡ done f w'
      → Finished c i f × Holds w.log w'.log []
  round_kept i ret args exits f w' e =
      let Q : Finish → World → Type 0 = λ g v. Finished c i g × Holds w.log v.log [] in
      Ensures-result f w' (
        subst (λ r. Ensures (λ _. Unit {0}) Q r) e
          (Ensures-weaken (λ _ _. tt) (λ _ v (h, (_, t)). (h, Still-Holds w v t))
            (rounds-Finished Any w k c i args ret exits w (λ _. tt)
              (Entered-any w.log, Still-refl w))))

  resumed_kept :
      (i late : ℕ) (o : Option ℕ) (f : Finish) (w' : World)
      → (after_halt c i o >>= after_serve k i late λ c' ret. pure (running c' ret)) w ≡ done f w'
      → Finished c i f × Holds w.log w'.log []
  resumed_kept i late o f w' e =
      let Q : Finish → World → Type 0 = λ g v. Finished c i g × Holds w.log v.log [] in
      Ensures-result f w' (
        subst (λ r. Ensures (λ _. Unit {0}) Q r) e
          (Ensures-weaken (λ _ _. tt) (λ _ v (h, (_, t)). (h, Still-Holds w v t))
            (resumed-Finished Any w k c i late o w (Entered-any w.log, Still-refl w))))

  begun_kept :
      (garbage ret : ℕ) (c' : Cntr) (w' : World)
      → cntr_ioctl_start k c garbage [] w ≡ done (running c' ret) w'
      → Same (lock c (k.copy_start_args w.log).1.cpu k.current_task) c' × Holds w.log w'.log []
  begun_kept garbage ret c' w' e =
      let i = (k.copy_start_args w.log).1.cpu in
      let Q : Finish → World → Type 0 = λ g v. Ended c i k.current_task g × Holds w.log v.log [] in
      let result : Q (running c' ret) w' = Ensures-result (running c' ret) w' (
        subst (λ r. Ensures (λ _. Unit {0}) Q r) e
          (Ensures-weaken (λ _ _. tt) (λ _ v (h, (_, t)). (h, Still-Holds w v t))
            (cntr_ioctl_start-Ended Any k c garbage [] w (λ _. tt) (Entered-any w.log)))) in
      result

Changed-Moved :
    (k : Kernel) (s : Threads) (req : Request) (r : ℤ) (c : Cntr) (w : World)
    → Changed k req s.cntr s.world r c w
    → Moved k s (lost_by k req s.cntr s.world r) (record { cntr = c; world = w; place = s.place })
Changed-Moved k s req _ _ _ (kept r c w none same took) =
    rw none (keeps _ (Same-Kin s.cntr c s.cntr.cpu same) took)
Changed-Moved k s req _ _ _ (wired_up kick call w eq fits gk gc took) =
    rw eq (wires kick call w s.place fits gk gc took)

pub Turn-Moved :
    (k : Kernel) (s : Threads) (more : List Resource) (q : Threads)
    → Turn k s more q
    → Moved k s more q
unfolding lock unlock
Turn-Moved k s _ _ (starts t garbage ret c w out e) =
    let (same, took) = begun_kept k s.cntr s.world garbage ret c w e in
    keeps _ (Same-Kin s.cntr c _ same) took
Turn-Moved k s _ _ (continues t i ret ret' args ex c w at e) =
    let (same, took) = round_kept k s.cntr s.world i ret args (ex ∷ []) (running c ret') w e in
    keeps _ (Same-Kin s.cntr c s.cntr.cpu same) took
Turn-Moved k s _ _ (halts t i ret args ex c w at e) =
    let (same, took) = round_kept k s.cntr s.world i ret args (ex ∷ []) (halted c) w e in
    keeps _ (Same-Kin s.cntr c s.cntr.cpu same) took
Turn-Moved k s _ _ (resumes t i late ret args wakeups c w at e) =
    let o = handle_rkcall_halt i (s.cntr.cpu i).virtio_event_cnt wakeups in
    let (same, took) = resumed_kept k s.cntr s.world i late o (running c ret) w e in
    keeps _ (Same-Kin s.cntr c s.cntr.cpu same) took
Turn-Moved k s _ _ (leaves t i ret args ex r c w at e) =
    let (same, took) = round_kept k s.cntr s.world i ret args (ex ∷ []) (returned r c) w e in
    keeps _ (Same-Kin s.cntr c _ same) took
Turn-Moved k s _ _ (asks t garbage req r c w out e) =
    Changed-Moved k s req r c w (cntr_ioctl-Changed k req s.cntr garbage [] s.world r c w e)
