-- ===== src/Pkm/Threads/Rounds.antt =====
-- What the requests of the threads do, one by one, to what holds of them at any time.
use cki_artifact.Base.{
  Option, ℕ, ℤ, ◌%◌, ◌<◌, ◌≡◌, refl, ◌∙◌, false, Bool, not, ◌==◌, leb, if_both, Bool-cases, inl,
  inr, [], ◌∷◌,
}
use mathlib.Core.Path.{subst}
use cki_artifact.Pkm.Abi.{Request, StartArgs, efault, einval, eagain}
use cki_artifact.Pkm.State.{Cntr}
use cki_artifact.Pkm.World.{pure, ◌>>=◌, Kernel, World, Run, done}
use cki_artifact.Pkm.Outcome.{Ensures, Ensures-result, Ensures-weaken}
use cki_artifact.Pkm.Start.{
  after_halt, after_serve, Exit, Finish, running, returned, rounds, cntr_ioctl_start, lock,
}
use cki_artifact.Pkm.Start.Effects.{Tagged, Still-refl, Same}
use cki_artifact.Pkm.Start.Device.{IsSteady}
use cki_artifact.Pkm.Start.Serve.{cr3-tagged}
use cki_artifact.Pkm.Start.Entry.{Ended, cntr_ioctl_start-Ended}
use cki_artifact.Pkm.Start.Rounds.{EntersFine, Finished, rounds-Finished, resumed-Finished}
use cki_artifact.Pkm.Ioctl.{cntr_ioctl}
use cki_artifact.Pkm.Threads.{Place, Threads}
use cki_artifact.Pkm.Threads.Entries.{cntr_ioctl-Fine}
use cki_artifact.Pkm.Threads.Owners.{Owned}

-- A start that gets into the loop has found the mutex of its processor free.
pub start-free :
    (k : Kernel) (c c' : Cntr) (garbage ret : ℕ) (w w' : World)
    → cntr_ioctl_start k c garbage [] w ≡ done (running c' ret) w'
    → (c.cpu (k.copy_start_args w.log).1.cpu).lock ≡ false
unfolding cntr_ioctl_start
start-free k c c' garbage ret w w' e =
    let i = (k.copy_start_args w.log).1.cpu in
    let Early : Run Finish → Type 0 = λ m. (z : ℤ) × (m ≡ done (returned z c) w) in
    elim (Bool-cases (c.cpu i).lock) [
      | inr free ↦ free
      | inl held ↦
          let (z, e') : Early (cntr_ioctl_start k c garbage [] w) =
            if_both Early (not ((k.copy_start_args w.log).0 == 0)) (efault, refl)
              (if_both Early (leb c.n_cpus i) (einval, refl) (eagain, rw held refl)) in
          absurd (cc (e, e'))
    ]

-- The mutexes of a container.
abbrev pub locks : Cntr → ℕ → Bool
locks c i = (c.cpu i).lock

-- What holds of the threads at any time.
pub record IsSafe (self pcid : ℕ) (s : Threads) : Type 0 where
  pub self_same : s.cntr.self ≡ self
  pub pcid_same : s.cntr.pcid ≡ pcid
  pub owned : Owned (locks s.cntr) s.place
  pub tagged : Tagged self pcid s.world.log

module _ (k : Kernel) (self pcid : ℕ) (small : pcid < 4096) where
  abbrev Fine : ℕ → ℕ → Type 0
  Fine cntr cr3 = cntr ≡ self → cr3 % 4096 ≡ pcid

  enters : (c : Cntr) → c.pcid ≡ pcid → EntersFine Fine c
  enters c e cr3 _ = rw e (cr3-tagged cr3 pcid small)

  -- The states before and after a turn, in terms of the container.
  pub Same-IsSafe :
      (s : Threads) (c : Cntr) (w : World) (place : ℕ → Place)
      → IsSafe self pcid s
      → c.self ≡ s.cntr.self
      → c.pcid ≡ s.cntr.pcid
      → Owned (locks c) place
      → Tagged self pcid w.log
      → IsSafe self pcid (record { cntr = c; world = w; place = place })
  Same-IsSafe s c w place safe es ep owned t = record {
    self_same = es ∙ safe.self_same;
    pcid_same = ep ∙ safe.pcid_same;
    owned = owned;
    tagged = t;
  }

  pub begun :
      (s : Threads) (garbage ret : ℕ) (c : Cntr) (w : World)
      → IsSafe self pcid s
      → cntr_ioctl_start k s.cntr garbage [] s.world ≡ done (running c ret) w
      → Same (lock s.cntr (k.copy_start_args s.world.log).1.cpu k.current_task) c
        × Tagged self pcid w.log
  begun s garbage ret c w safe e =
      let i = (k.copy_start_args s.world.log).1.cpu in
      let Q : Finish → World → Type 0 =
        λ g w'. Ended s.cntr i k.current_task g × IsSteady Fine s.world w' in
      let (h, (t, _)) : Q (running c ret) w = Ensures-result (running c ret) w (
        subst (λ r. Ensures (IsSteady Fine s.world) Q r) e
          (cntr_ioctl_start-Ended Fine k s.cntr garbage [] s.world (enters s.cntr safe.pcid_same)
            safe.tagged)) in
      (h, t)

  pub asked :
      (s : Threads) (garbage : ℕ) (req : Request) (r : ℤ) (c : Cntr) (w : World)
      → IsSafe self pcid s
      → cntr_ioctl k req s.cntr garbage [] s.world ≡ done (returned r c) w
      → Tagged self pcid w.log
  asked s garbage req r c w safe e = Ensures-result (returned r c) w (
      subst (λ x. Ensures (λ w'. Tagged self pcid w'.log) (λ _ w'. Tagged self pcid w'.log) x) e
        (cntr_ioctl-Fine Fine k req s.cntr garbage [] s.world (enters s.cntr safe.pcid_same)
          safe.tagged))

  -- One round from the head of the loop.
  pub round :
      (s : Threads) (i ret : ℕ) (args : StartArgs) (ex : Exit) (f : Finish) (w : World)
      → IsSafe self pcid s
      → rounds k s.cntr i args ret (ex ∷ []) s.world ≡ done f w
      → Finished s.cntr i f × Tagged self pcid w.log
  round s i ret args ex f w safe e =
      let Q : Finish → World → Type 0 = λ g w'. Finished s.cntr i g × Tagged self pcid w'.log in
      Ensures-result f w (
        subst (λ r. Ensures (IsSteady Fine s.world) Q r) e
          (Ensures-weaken (λ _ h. h) (λ _ _ (h, (t, _)). (h, t))
            (rounds-Finished Fine s.world k s.cntr i args ret (ex ∷ []) s.world
              (enters s.cntr safe.pcid_same) (safe.tagged, Still-refl s.world))))

  -- The end of a halt.
  pub resumed :
      (s : Threads) (i late : ℕ) (o : Option ℕ) (f : Finish) (w : World)
      → IsSafe self pcid s
      → (after_halt s.cntr i o >>= after_serve k i late λ c ret. pure (running c ret)) s.world
        ≡ done f w
      → Finished s.cntr i f × Tagged self pcid w.log
  resumed s i late o f w safe e =
      let Q : Finish → World → Type 0 = λ g w'. Finished s.cntr i g × Tagged self pcid w'.log in
      Ensures-result f w (
        subst (λ r. Ensures (IsSteady Fine s.world) Q r) e
          (Ensures-weaken (λ _ h. h) (λ _ _ (h, (t, _)). (h, t))
            (resumed-Finished Fine s.world k s.cntr i late o s.world
              (safe.tagged, Still-refl s.world))))
