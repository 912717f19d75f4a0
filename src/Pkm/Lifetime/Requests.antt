-- ===== src/Pkm/Lifetime/Requests.antt =====
-- What a request on a container's file that returns has done to the container and to the world.
use cki_artifact.Base.{ℕ, ℤ, pos, negsuc, List, [], ◌∷◌, ◌<◌, ◌≡◌, refl, arith, not, ◌==◌, if_both}
use mathlib.Core.Path.{subst}
use cki_artifact.Pkm.Abi.{
  Request, create_cntr, cntr_start, get_phys_base, get_phys_base2, get_vring_info, set_vring_efds,
  other, efault,
}
use cki_artifact.Pkm.State.{Cntr}
use cki_artifact.Pkm.World.{Kernel, World, Run, Reply, phys_reply, eventfd, and_then, done}
use cki_artifact.Pkm.Balance.{Holds}
use cki_artifact.Pkm.Outcome.{Ensures, on_done, Ensures-weaken, Ensures-result}
use cki_artifact.Pkm.Start.{Exit, Finish, running, halted, returned}
use cki_artifact.Pkm.Start.Effects.{Entered-any, Still, Still-refl, Same}
use cki_artifact.Pkm.Start.Serve.{Same-refl}
use cki_artifact.Pkm.Start.Entry.{Ended, cntr_ioctl_start-Ended}
use cki_artifact.Pkm.Vring.{
  copy_to_user, cntr_ioctl_get_phys_base, cntr_ioctl_get_phys_base2, cntr_ioctl_get_vring_info,
}
use cki_artifact.Pkm.Vring.Balance.{
  with_efds, IsFetched, refused, handed, cntr_ioctl_set_vring_efds-Handed,
}
use cki_artifact.Pkm.Ioctl.{cntr_ioctl}
use cki_artifact.Pkm.Lifetime.{lost_by}

-- A request has left the container and what is held alone, or has given the named queue two
-- eventfds, which are held on top.
pub data Changed (k : Kernel) (req : Request) (c : Cntr) (w : World)
    : ℤ → Cntr → World → Type 0 where
  kept :
      (r : ℤ) (c' : Cntr) (w' : World)
      → lost_by k req c w r ≡ []
      → Same c c'
      → Holds w.log w'.log []
      → Changed k req c w r c' w'
  wired_up :
      (kick call : ℕ) (w' : World)
      → req ≡ set_vring_efds
      → (k.copy_vring_efds w.log).1.idx < 2
      → IsFetched k kick
      → IsFetched k call
      → Holds w.log w'.log (eventfd call ∷ eventfd kick ∷ [])
      → Changed k req c w (pos 0) (with_efds c (k.copy_vring_efds w.log).1.idx kick call) w'

pub Still-Holds : (w w' : World) → Still w w' → Holds w.log w'.log []
Still-Holds w w' h r = omega (arith, (h r).0, (h r).1)

module _ (k : Kernel) (c : Cntr) (garbage : ℕ) (exits : List Exit) (w : World) where
  -- What is said of a request that returns; nothing is of one that has not.
  abbrev Returned : Request → Finish → World → Type 0
  Returned req (returned r c') w' = Changed k req c w r c' w'
  Returned req _ w' = Unit

  abbrev Leaves : Request → Type 0
  Leaves req = Ensures (λ _. Unit {0}) (Returned req) (cntr_ioctl k req c garbage exits w)

  still : Holds w.log w.log []
  still = Still-Holds w w (Still-refl w)

  start-Returned :
      (f : Finish) (w' : World)
      → Ended c (k.copy_start_args w.log).1.cpu k.current_task f
      → Still w w'
      → Returned cntr_start f w'
  start-Returned (running d ret) w' h s = tt
  start-Returned (halted d) w' h s = tt
  start-Returned (returned r d) w' h s = kept r d w' refl h (Still-Holds w w' s)

  -- An answer to the caller.
  copy_to_user-Leaves :
      (req : Request) (reply : Reply)
      → ((r : ℤ) → lost_by k req c w r ≡ [])
      → Ensures
          (λ _. Unit {0})
          (Returned req)
          (and_then (copy_to_user k reply w) (λ r w'. done (returned r c) w'))
  unfolding copy_to_user
  copy_to_user-Leaves req reply none_lost =
      if_both
        (λ (m : Run ℤ).
          Ensures (λ _. Unit {0}) (Returned req) (and_then m λ r w'. done (returned r c) w'))
        (k.copy_to_user w.log == 0)
        (on_done (kept (pos 0) c _ (none_lost (pos 0)) (Same-refl c) (λ r. omega arith)))
        (on_done (kept _ c w (none_lost _) (Same-refl c) still))

  cntr_ioctl-Leaves : (req : Request) → Leaves req
  unfolding cntr_ioctl cntr_ioctl_get_phys_base cntr_ioctl_get_phys_base2 cntr_ioctl_get_vring_info
  cntr_ioctl-Leaves cntr_start =
      Ensures-weaken (λ _ _. tt) (λ f w' (h, (_, s)). start-Returned f w' h s)
        (cntr_ioctl_start-Ended (λ _ _. Unit) k c garbage exits w (λ _. tt) (Entered-any w.log))
  cntr_ioctl-Leaves get_phys_base =
      copy_to_user-Leaves get_phys_base (phys_reply (k.page_to_phys c.mem_hpage)) λ r. refl
  cntr_ioctl-Leaves get_phys_base2 =
      copy_to_user-Leaves get_phys_base2 (phys_reply (k.page_to_phys c.mem2_hpage)) λ r. refl
  cntr_ioctl-Leaves get_vring_info =
      if_both
        (λ (m : Run ℤ).
          Ensures (λ _. Unit {0}) (Returned get_vring_info)
            (and_then m λ r w'. done (returned r c) w'))
        (not ((k.copy_vring_args w.log).0 == 0))
        (on_done (kept efault c w refl (Same-refl c) still))
        (copy_to_user-Leaves get_vring_info _ λ r. refl)
  cntr_ioctl-Leaves set_vring_efds = elim (cntr_ioctl_set_vring_efds-Handed k c w) [
    | refused e w' eq t ↦ rw eq (on_done (kept (negsuc e) c w' refl (Same-refl c) t.2))
    | handed kick call w' fits gk gc eq t ↦
        rw eq (on_done (wired_up kick call w' refl fits gk gc t.2))
  ]
  cntr_ioctl-Leaves create_cntr = on_done (kept _ c w refl (Same-refl c) still)
  cntr_ioctl-Leaves (other n) = on_done (kept _ c w refl (Same-refl c) still)

-- What a request that returns has done.
pub cntr_ioctl-Changed :
    (k : Kernel) (req : Request) (c : Cntr) (garbage : ℕ) (exits : List Exit) (w : World) (r : ℤ)
    (c' : Cntr) (w' : World)
    → cntr_ioctl k req c garbage exits w ≡ done (returned r c') w'
    → Changed k req c w r c' w'
cntr_ioctl-Changed k req c garbage exits w r c' w' e = Ensures-result (returned r c') w' (
    subst (λ x. Ensures (λ _. Unit {0}) (Returned k c garbage exits w req) x) e
      (cntr_ioctl-Leaves k c garbage exits w req))
