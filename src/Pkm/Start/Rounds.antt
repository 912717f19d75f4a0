-- ===== src/Pkm/Start/Rounds.antt =====
-- A round of the loop of `pkm_cntr_ioctl_start`, and its rounds one after the other: how the container
-- is entered, and what they leave alone.
use cki_artifact.Base.{
  Option, none, some, ℕ, ◌≡◌, if_both, refl, Bool, true, false, if◌then◌else◌, ◌==◌, bit_and,
  bit_or, not64, ℤ, List, [], ◌∷◌,
}
use cki_artifact.Pkm.Abi.{StartArgs, cr3_pcid_mask}
use cki_artifact.Pkm.State.{Cntr, CntrCpu}
use cki_artifact.Pkm.World.{Kernel, Cmd, World, pure, ◌>>=◌}
use cki_artifact.Pkm.Rkcall
use cki_artifact.Pkm.Start.{
  virtio_wakeups, call_of, after_halt, with_cpu, after_serve, Served, reply, leave, leave_with,
  waiting, Exit, enter_cntr, take_interrupt, finish_round, Finish, running, halted, returned,
  unlock, rounds, copy_args,
}
use cki_artifact.Pkm.Outcome.{Ensures, on_done, Ensures-and_then, Ensures-weaken}
use cki_artifact.Pkm.Start.Effects.{Same, Same-trans}
use cki_artifact.Pkm.Start.Device.{IsSteady, AnySteady}
use cki_artifact.Pkm.Start.Serve.{Serves, with_cpu-Same, Same-refl, serve-Serves}

-- What goes to CR3 when a container is entered.
abbrev entry_cr3 : (cr3 : ℕ) → Cntr → ℕ
entry_cr3 cr3 c = bit_or (bit_and cr3 (not64 cr3_pcid_mask)) c.pcid

-- The container `c` is only ever entered the way that `fine` says.
abbrev pub EntersFine : (fine : ℕ → ℕ → Type 0) → Cntr → Type 0
EntersFine fine c = (cr3 : ℕ) → fine c.self (entry_cr3 cr3 c)

pub EntersFine-Same :
    (fine : ℕ → ℕ → Type 0) (c c' : Cntr) → Same c c' → EntersFine fine c → EntersFine fine c'
EntersFine-Same fine c c' same h cr3 = rw (same.self_same, same.pcid_same) (h cr3)

-- A request that has come back has given up the mutex of its processor and touched no other.
abbrev pub Finished : Cntr → ℕ → Finish → Type 0
Finished c i (running c' ret) = Same c c'
Finished c i (halted c') = Same c c'
Finished c i (returned r c') = Same (unlock c i) c'

module _ (fine : ℕ → ℕ → Type 0) (base : World) where
  abbrev IsKept : World → Type 0
  IsKept = IsSteady fine base

  abbrev AnyKept : {A : Type 0} → A → World → Type 0
  AnyKept = AnySteady fine base

  -- The round's head and tail.
  enter_cntr-Serves :
      (k : Kernel) (c : Cntr) (i : ℕ) (ex : Exit) (w : World)
      → EntersFine fine c
      → IsKept w
      → Ensures IsKept (λ c' w'. Same c c' × IsKept w') (enter_cntr k c i ex w)
  unfolding enter_cntr take_interrupt
  enter_cntr-Serves k c i ex w enters t =
      let entered = enters (c.cpu i).ctx.pmode.cr3 in
      let cnt = virtio_wakeups i ex.wakeups (c.cpu i).virtio_event_cnt in
      let back = with_cpu-Same c i (λ p. record p { ctx = ex.ctx; virtio_event_cnt = cnt }) refl in
      let interrupt =
        if_both (Ensures IsKept AnyKept) (ex.ctx.pmode.rdx == Rkcall.intr)
          (on_done ((entered, t.0), t.1)) (on_done ((entered, t.0), t.1)) in
      Ensures-and_then _ _ interrupt λ _ _ h. on_done (back, h)

  finish_round-Same :
      (k : Kernel) (c : Cntr) (i ret late : ℕ) → Same c (finish_round k c i ret late)
  unfolding finish_round
  finish_round-Same k c i ret late = search with_cpu-Same

  unlock-Same : (c c' : Cntr) (i : ℕ) → Same c c' → Same (unlock c i) (unlock c' i)
  unfolding unlock
  unlock-Same c c' i h = record {
    self_same = h.self_same;
    pcid_same = h.pcid_same;
    mem_same = h.mem_same;
    mem2_same = h.mem2_same;
    initrd_same = h.initrd_same;
    pgtbl_same = h.pgtbl_same;
    params_same = h.params_same;
    cpus_same = h.cpus_same;
    wired = h.wired;
    lock_same = λ j. if_else j (i == j);
  }
    where
      if_else :
          (j : ℕ) (b : Bool)
          → (if b then record (c'.cpu i) { lock = false } else c'.cpu j).lock
            ≡ (if b then record (c.cpu i) { lock = false } else c.cpu j).lock
      if_else j true = refl
      if_else j false = h.lock_same j

  copy_args-Kept :
      (k : Kernel) (args : StartArgs) (r : ℤ) (w : World)
      → IsKept w
      → Ensures IsKept AnyKept (copy_args k args r w)
  unfolding copy_args
  copy_args-Kept k args r w t =
      if_both (Ensures IsKept AnyKept) (k.copy_to_user w.log == 0) (on_done t) (on_done t)

  after_serve-Finished :
      (k : Kernel) (c c₁ : Cntr) (i late : ℕ) (again : Cntr → ℕ → Cmd Finish) (s : Served)
      (w : World)
      → Same c c₁
      → Serves fine base c₁ s w
      → ((c' : Cntr) (ret : ℕ)
          → Same c c'
          → Ensures IsKept (λ f w'. Finished c i f × IsKept w') (again c' ret w))
      → Ensures IsKept (λ f w'. Finished c i f × IsKept w') (after_serve k i late again s w)
  unfolding after_serve
  after_serve-Finished k c c₁ i late again (reply ret c₂) w same₁ (same₂, t) next =
      let same = Same-trans (Same-trans same₁ same₂) (finish_round-Same k c₂ i ret late) in
      next (finish_round k c₂ i ret late) ret same
  after_serve-Finished k c c₁ i late again (leave r c₂) w same₁ (same₂, t) next =
      on_done (unlock-Same c c₂ i (Same-trans same₁ same₂), t)
  after_serve-Finished k c c₁ i late again (leave_with r out c₂) w same₁ (same₂, t) next =
      Ensures-and_then _ _ (copy_args-Kept k out r w t)
        λ _ _ h. on_done (unlock-Same c c₂ i (Same-trans same₁ same₂), h)
  after_serve-Finished k c c₁ i late again (waiting c₂) w same₁ (same₂, t) next =
      on_done (Same-trans same₁ same₂, t)

  Finished-Same : (c c' : Cntr) (i : ℕ) (f : Finish) → Same c c' → Finished c' i f → Finished c i f
  Finished-Same c c' i (running d ret) h g = Same-trans h g
  Finished-Same c c' i (halted d) h g = Same-trans h g
  Finished-Same c c' i (returned r d) h g = Same-trans (unlock-Same c c' i h) g

  pub rounds-Finished :
      (k : Kernel) (c : Cntr) (i : ℕ) (args : StartArgs) (ret : ℕ) (exits : List Exit) (w : World)
      → EntersFine fine c
      → IsKept w
      → Ensures IsKept (λ f w'. Finished c i f × IsKept w') (rounds k c i args ret exits w)
  unfolding rounds
  rounds-Finished k c i args ret [] w enters t = on_done (Same-refl c, t)
  rounds-Finished k c i args ret (ex ∷ rest) w enters t =
      Ensures-and_then _ _ (enter_cntr-Serves k c i ex w enters t) λ c₁ w₁ (same₁, t₁).
        Ensures-and_then _ _
          (serve-Serves fine base k c₁ i args ret ex.halt_wakeups (call_of ex.ctx.pmode.rdx) w₁ t₁)
          λ s w₂ h.
            after_serve-Finished k c c₁ i ex.late_wakeups (λ c' ret'. rounds k c' i args ret' rest)
              s w₂ same₁ h
              λ c' ret' same.
                Ensures-weaken (λ _ t. t) (λ f _ (g, t). (Finished-Same c c' i f same g, t))
                  (rounds-Finished k c' i args ret' rest w₂ (EntersFine-Same fine c c' same enters)
                    h.1)

  -- A halt that goes on after other threads have had their turns.
  pub resumed-Finished :
      (k : Kernel) (c : Cntr) (i late : ℕ) (o : Option ℕ) (w : World)
      → IsKept w
      → Ensures IsKept
          (λ f w'. Finished c i f × IsKept w')
          ((after_halt c i o >>= after_serve k i late λ c' ret. pure (running c' ret)) w)
  unfolding after_halt
  resumed-Finished k c i late none w t =
      after_serve-Finished k c c i late (λ c' ret. pure (running c' ret)) (waiting c) w
        (Same-refl c) (Same-refl c, t) λ c' ret same. on_done (same, t)
  resumed-Finished k c i late (some cnt) w t =
      let f : CntrCpu → CntrCpu = λ p. record p { virtio_event_cnt = cnt } in
      after_serve-Finished k c c i late (λ c' ret. pure (running c' ret)) (reply 0 (with_cpu c i f))
        w (Same-refl c) (with_cpu-Same c i f refl, t) λ c' ret same. on_done (same, t)
