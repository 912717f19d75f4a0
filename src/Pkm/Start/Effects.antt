-- ===== src/Pkm/Start/Effects.antt =====
-- What a round of `pkm_cntr_ioctl_start` may do: every outcome of a command satisfies a
-- postcondition (Pkm/Outcome), the log shows with which CR3 a container was entered, and nothing
-- is taken or given back.
use cki_artifact.Base.{ℕ, ◌%◌, ◌≡◌, refl, ◌∙◌, [], ◌∷◌}
use cki_artifact.Pkm.State.{Cntr, VirtioNet}
use cki_artifact.Pkm.World.{
  World, Resource, acquire, release, signal, wait_add, wait_remove, to_user, enter, host_interrupt,
  printk, fd_install, misc_register, misc_deregister, Log,
}
use cki_artifact.Pkm.Balance.{taken, given}

-- Each entry of a container, with the value that went to CR3, is as `fine` says.
abbrev pub Entered : (fine : ℕ → ℕ → Type 0) → Log → Type 0
Entered fine [] = Unit {0}
Entered fine (enter cntr cpu cr3 f ∷ log) = fine cntr cr3 × Entered fine log
Entered fine (_ ∷ log) = Entered fine log

-- Each entry of the container at `self` had `pcid` as its process-context identifier.
abbrev pub Tagged : (self pcid : ℕ) → Log → Type 0
Tagged self pcid = Entered (λ cntr cr3. cntr ≡ self → cr3 % 4096 ≡ pcid)

-- Nothing was taken or given back.
abbrev pub Still : (w w' : World) → Type 0
Still w w' = (r : Resource) → (taken r w'.log ≡ taken r w.log) × (given r w'.log ≡ given r w.log)

pub Still-refl : (w : World) → Still w w
Still-refl w r = (refl, refl)

-- Each queue has the eventfds that it had.
abbrev pub Wired : (net net' : VirtioNet) → Type 0
Wired net net' =
    (i : ℕ)
    → ((net'.queues i).kick ≡ (net.queues i).kick) × ((net'.queues i).call ≡ (net.queues i).call)

-- The container is the same one, of the same pages and eventfds, and each processor's mutex is as
-- it was.
pub record Same (c c' : Cntr) : Type 0 where
  pub self_same : c'.self ≡ c.self
  pub pcid_same : c'.pcid ≡ c.pcid
  pub mem_same : c'.mem_hpage ≡ c.mem_hpage
  pub mem2_same : c'.mem2_hpage ≡ c.mem2_hpage
  pub initrd_same : c'.initrd_hpage ≡ c.initrd_hpage
  pub pgtbl_same : c'.boot_pgtbl ≡ c.boot_pgtbl
  pub params_same : c'.boot_params ≡ c.boot_params
  pub cpus_same : c'.cpus ≡ c.cpus
  pub wired : Wired c.virtio_net c'.virtio_net
  pub lock_same : (j : ℕ) → (c'.cpu j).lock ≡ (c.cpu j).lock

pub Same-trans : {a b c : Cntr} → Same a b → Same b c → Same a c
Same-trans p q = record {
  self_same = q.self_same ∙ p.self_same;
  pcid_same = q.pcid_same ∙ p.pcid_same;
  mem_same = q.mem_same ∙ p.mem_same;
  mem2_same = q.mem2_same ∙ p.mem2_same;
  initrd_same = q.initrd_same ∙ p.initrd_same;
  pgtbl_same = q.pgtbl_same ∙ p.pgtbl_same;
  params_same = q.params_same ∙ p.params_same;
  cpus_same = q.cpus_same ∙ p.cpus_same;
  wired = λ i. ((q.wired i).0 ∙ (p.wired i).0, (q.wired i).1 ∙ (p.wired i).1);
  lock_same = λ j. q.lock_same j ∙ p.lock_same j;
}

pub Entered-any : (log : Log) → Entered (λ _ _. Unit) log
Entered-any [] = tt
Entered-any (enter cntr cpu cr3 f ∷ log) = (tt, Entered-any log)
Entered-any (acquire r ∷ log) = Entered-any log
Entered-any (release r ∷ log) = Entered-any log
Entered-any (signal e ∷ log) = Entered-any log
Entered-any (wait_add head cntr idx ∷ log) = Entered-any log
Entered-any (wait_remove head ∷ log) = Entered-any log
Entered-any (to_user r ∷ log) = Entered-any log
Entered-any (host_interrupt n ∷ log) = Entered-any log
Entered-any (printk ns ∷ log) = Entered-any log
Entered-any (fd_install n f ∷ log) = Entered-any log
Entered-any (misc_register ∷ log) = Entered-any log
Entered-any (misc_deregister ∷ log) = Entered-any log
