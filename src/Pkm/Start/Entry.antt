-- ===== src/Pkm/Start/Entry.antt =====
-- The container is only ever entered under its own identifier, and a request that returns leaves
-- the mutexes as it found them.
use cki_artifact.Base.{
  ℕ, ◌≡◌, inl, inr, Bool-cases, if_both, if_cases, sym, ap, ◌∙◌, arith, true, false, not,
  if◌then◌else◌, ◌==◌, leb, ℤ, List,
}
use cki_artifact.Pkm.Abi.{efault, einval, eagain}
use cki_artifact.Pkm.State.{Cntr}
use cki_artifact.Pkm.World.{Kernel, World, Run, done}
use cki_artifact.Pkm.Start.{
  cntr_ioctl_start, lock, is_zero, Exit, Finish, running, halted, returned, unlock,
}
use cki_artifact.Pkm.Outcome.{Ensures, on_done, Ensures-weaken}
use cki_artifact.Pkm.Start.Effects.{Entered, Still-refl, Same, Same-trans}
use cki_artifact.Pkm.Start.Device.{Wired-refl, IsSteady}
use cki_artifact.Pkm.Start.Serve.{Same-of, Same-refl}
use cki_artifact.Pkm.Start.Rounds.{EntersFine, Finished, rounds-Finished}

-- The mutexes after a request for processor `i`: given back where it returned, and that of the
-- processor held where the thread is still in the container or in a halt.
abbrev pub Locks : Cntr → ℕ → Finish → Type 0
Locks c i (running c' ret) = (j : ℕ) → (c'.cpu j).lock ≡ (if i == j then true else (c.cpu j).lock)
Locks c i (halted c') = (j : ℕ) → (c'.cpu j).lock ≡ (if i == j then true else (c.cpu j).lock)
Locks c i (returned r c') = (j : ℕ) → (c'.cpu j).lock ≡ (c.cpu j).lock

pub lock-update :
    (c : Cntr) (i task j : ℕ)
    → ((lock c i task).cpu j).lock ≡ (if i == j then true else (c.cpu j).lock)
unfolding lock
lock-update c i task j = elim (Bool-cases (i == j)) [ inl e ↦ rw e | inr e ↦ rw e ]

pub unlock-update :
    (c : Cntr) (i j : ℕ) → ((unlock c i).cpu j).lock ≡ (if i == j then false else (c.cpu j).lock)
unfolding unlock
unlock-update c i j = elim (Bool-cases (i == j)) [ inl e ↦ rw e | inr e ↦ rw e ]

unlock-lock :
    (c : Cntr) (i task j : ℕ)
    → (c.cpu i).lock ≡ false
    → ((unlock (lock c i task) i).cpu j).lock ≡ (c.cpu j).lock
unfolding lock unlock
unlock-lock c i task j free = elim (Bool-cases (i == j)) [
  | inl e ↦ let same : i ≡ j = ground arith in rw e (sym free ∙ ap (λ t. (c.cpu t).lock) same)
  | inr e ↦ rw e
]

-- What a request ends with: the container as it was where it returned, and with the mutex of its
-- processor held where the thread is still in the container or in a halt.
abbrev pub Ended : Cntr → (i task : ℕ) → Finish → Type 0
Ended c i task (running c' ret) = Same (lock c i task) c'
Ended c i task (halted c') = Same (lock c i task) c'
Ended c i task (returned r c') = Same c c'

unlock-lock-Same :
    (c : Cntr) (i task : ℕ) → (c.cpu i).lock ≡ false → Same c (unlock (lock c i task) i)
unfolding lock unlock
unlock-lock-Same c i task free =
    let c' = unlock (lock c i task) i in
    Same-of c c'.cpu c.virtio_net (λ j. unlock-lock c i task j free) (Wired-refl c.virtio_net)

Finished-Ended :
    (c : Cntr) (i task : ℕ) (f : Finish)
    → (c.cpu i).lock ≡ false
    → Finished (lock c i task) i f
    → Ended c i task f
Finished-Ended c i task (running d ret) free h = h
Finished-Ended c i task (halted d) free h = h
Finished-Ended c i task (returned r d) free h = Same-trans (unlock-lock-Same c i task free) h

-- A start request, in terms of the processor that it names.
pub cntr_ioctl_start-Ended :
    (fine : ℕ → ℕ → Type 0) (k : Kernel) (c : Cntr) (garbage : ℕ) (exits : List Exit) (w : World)
    → EntersFine fine c
    → Entered fine w.log
    → Ensures
        (IsSteady fine w)
        (λ f w'. Ended c (k.copy_start_args w.log).1.cpu k.current_task f × IsSteady fine w w')
        (cntr_ioctl_start k c garbage exits w)
unfolding cntr_ioctl_start
cntr_ioctl_start-Ended fine k c garbage exits w enters t =
    let args = (k.copy_start_args w.log).1 in
    let i = args.cpu in
    let task = k.current_task in
    let r = k.set_cpus_allowed w.log in
    let now : IsSteady fine w w = (t, Still-refl w) in
    let P : Run Finish → Type 0 =
      Ensures (IsSteady fine w) λ f w'. Ended c i task f × IsSteady fine w w' in
    let early : (e : ℤ) → P (done (returned e c) w) = λ e. on_done (Same-refl c, now) in
    if_both P (not ((k.copy_start_args w.log).0 == 0)) (early efault) (
      if_both P (leb c.n_cpus i) (early einval) (
        if_cases P (c.cpu i).lock (λ _. early eagain)
          λ free.
            if_both P (is_zero r)
              (Ensures-weaken (λ _ h. h) (λ f w' (h, t'). (Finished-Ended c i task f free h, t'))
                (rounds-Finished fine w k (lock c i task) i args garbage exits w enters now))
              (on_done (unlock-lock-Same c i task free, now))))
