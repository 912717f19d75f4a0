-- ===== src/Pkm/Threads/Entries.antt =====
-- No request but a start enters the container.
use cki_artifact.Base.{ℕ, ℤ, inl, inr, not, ◌==◌, leb, List, [], ◌∷◌, if_both}
use cki_artifact.Pkm.Abi.{
  Request, create_cntr, cntr_start, get_phys_base, get_phys_base2, get_vring_info, set_vring_efds,
  other, VringEfds, virtio_net_queue_num,
}
use cki_artifact.Pkm.State.{Cntr}
use cki_artifact.Pkm.World.{Kernel, World, Run, Reply, eventfd, file, acquire}
use cki_artifact.Pkm.Outcome.{Ensures, on_done, Ensures-and_then, Ensures-weaken}
use cki_artifact.Pkm.Start.{Exit}
use cki_artifact.Pkm.Start.Effects.{Entered}
use cki_artifact.Pkm.Start.Entry.{cntr_ioctl_start-Ended}
use cki_artifact.Pkm.Start.Rounds.{EntersFine}
use cki_artifact.Pkm.Vring.{
  copy_to_user, add_waits, out_put_kick, out_put_call, set_efds, poll_call, get_call, get_kick,
  cntr_ioctl_get_phys_base, cntr_ioctl_get_phys_base2, cntr_ioctl_get_vring_info,
  cntr_ioctl_set_vring_efds,
}
use cki_artifact.Pkm.Vring.Balance.{eventfd_fget-cases, eventfd_ctx_fdget-cases}
use cki_artifact.Pkm.Ioctl.{cntr_ioctl}

module _ (fine : ℕ → ℕ → Type 0) (k : Kernel) where
  abbrev IsFine : World → Type 0
  IsFine w = Entered fine w.log

  abbrev pub Fine : {A : Type 0} → Run A → Type 0
  Fine r = Ensures IsFine (λ _ w. IsFine w) r

  copy_to_user-Fine : (reply : Reply) (w : World) → IsFine w → Fine (copy_to_user k reply w)
  unfolding copy_to_user
  copy_to_user-Fine reply w h = search (if_both {A = Run ℤ} Fine, on_done)

  add_waits-Fine :
      (heads : List ℕ) (cntr idx : ℕ) (w : World) → IsFine w → Fine (add_waits heads cntr idx w)
  unfolding add_waits
  add_waits-Fine [] cntr idx w h = on_done h
  add_waits-Fine (head ∷ heads) cntr idx w h = add_waits-Fine heads cntr idx _ h

  set_efds-Fine :
      (c : Cntr) (idx kick call f : ℕ) (w : World)
      → IsFine w
      → Fine (set_efds k c idx kick call f w)
  unfolding set_efds
  set_efds-Fine c idx kick call f w h =
      Ensures-and_then _ _ (add_waits-Fine (k.poll_heads f) c.self idx w h) λ _ _ h'. on_done h'

  module _ (c : Cntr) (efds : VringEfds) where
    poll_call-Fine : (kick call : ℕ) (w : World) → IsFine w → Fine (poll_call k c efds kick call w)
    unfolding poll_call out_put_call out_put_kick
    poll_call-Fine kick call w h = elim (eventfd_fget-cases k efds.call w) [
      | inl (f, e) ↦
          rw e
            (set_efds-Fine c efds.idx kick call f (record w { log = acquire (file f) ∷ w.log }) h)
      | inr (n, e) ↦ rw e (on_done h)
    ]

    get_call-Fine : (kick : ℕ) (w : World) → IsFine w → Fine (get_call k c efds kick w)
    unfolding get_call out_put_kick
    get_call-Fine kick w h = elim (eventfd_ctx_fdget-cases k efds.call w) [
      | inl (f, g, e) ↦
          rw e (poll_call-Fine kick f (record w { log = acquire (eventfd f) ∷ w.log }) h)
      | inr (n, e) ↦ rw e (on_done h)
    ]

    get_kick-Fine : (w : World) → IsFine w → Fine (get_kick k c efds w)
    unfolding get_kick
    get_kick-Fine w h = elim (eventfd_ctx_fdget-cases k efds.kick w) [
      | inl (f, g, e) ↦ rw e (get_call-Fine f (record w { log = acquire (eventfd f) ∷ w.log }) h)
      | inr (n, e) ↦ rw e (on_done h)
    ]

  vring_efds-Fine : (c : Cntr) (w : World) → IsFine w → Fine (cntr_ioctl_set_vring_efds k c w)
  unfolding cntr_ioctl_set_vring_efds
  vring_efds-Fine c w h =
      let efds = (k.copy_vring_efds w.log).1 in
      if_both Fine (not ((k.copy_vring_efds w.log).0 == 0)) (on_done h)
        (if_both Fine (leb virtio_net_queue_num efds.idx) (on_done h) (get_kick-Fine c efds w h))

  vring_info-Fine : (c : Cntr) (w : World) → IsFine w → Fine (cntr_ioctl_get_vring_info k c w)
  unfolding cntr_ioctl_get_vring_info
  vring_info-Fine c w h =
      if_both Fine (not ((k.copy_vring_args w.log).0 == 0)) (on_done h) (copy_to_user-Fine _ w h)

  -- Whatever a request does, its entries are as they should be, if the container's own are.
  pub cntr_ioctl-Fine :
      (req : Request) (c : Cntr) (garbage : ℕ) (exits : List Exit) (w : World)
      → EntersFine fine c
      → IsFine w
      → Fine (cntr_ioctl k req c garbage exits w)
  unfolding cntr_ioctl cntr_ioctl_get_phys_base cntr_ioctl_get_phys_base2
  cntr_ioctl-Fine cntr_start c garbage exits w enters h =
      Ensures-weaken (λ _ t. t.0) (λ f w' (e, t). t.0)
        (cntr_ioctl_start-Ended fine k c garbage exits w enters h)
  cntr_ioctl-Fine get_phys_base c garbage exits w enters h =
      Ensures-and_then _ _ (copy_to_user-Fine _ w h) λ _ _ h'. on_done h'
  cntr_ioctl-Fine get_phys_base2 c garbage exits w enters h =
      Ensures-and_then _ _ (copy_to_user-Fine _ w h) λ _ _ h'. on_done h'
  cntr_ioctl-Fine get_vring_info c garbage exits w enters h =
      Ensures-and_then _ _ (vring_info-Fine c w h) λ _ _ h'. on_done h'
  cntr_ioctl-Fine set_vring_efds c garbage exits w enters h =
      Ensures-and_then _ _ (vring_efds-Fine c w h) λ _ _ h'. on_done h'
  cntr_ioctl-Fine create_cntr c garbage exits w enters h = on_done h
  cntr_ioctl-Fine (other n) c garbage exits w enters h = on_done h
