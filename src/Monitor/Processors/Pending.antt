-- ===== src/Monitor/Processors/Pending.antt =====
-- What the steps of other processors leave of a change that one has checked and not yet stored.
use cki_artifact.Base.{
  ℕ, ◌≤◌, ◌≡◌, refl, sym, ap, arith, ◌⊎◌, inl, inr, ◌==◌, Bool-cases, ne→==, Option, none, some,
  List,
}
use cki_artifact.Monitor.State.{PageType, unused, rank, Machine, Monitor, Event, update}
use cki_artifact.Monitor.Frames.{target}
use cki_artifact.Monitor.Layers.{IsLayered, IsDue}
use cki_artifact.Monitor.Declared.{retyped}
use cki_artifact.Monitor.Order.{retyped-Below, linked}
use cki_artifact.Monitor.Processors.{Change, IsAside}

module _ (m : Machine) where
  -- What a processor has pending may still be stored.
  abbrev pub MayStore : Monitor → Option Change → Type 0
  MayStore s none = Unit
  MayStore s (some c) = IsDue m s c.page_entry c.val

  module _ (s : Monitor) (page : ℕ) (layered : IsLayered m s) (log : List Event) where
    -- The rank of a declared page does not change.
    kept_rank :
        (t : PageType) (f : ℕ)
        → (rank (s.types page) ≡ 0) ⊎ (rank (s.types page) ≡ rank t)
        → 1 ≤ rank (s.types f)
        → rank (update s.types page t f) ≡ rank (s.types f)
    kept_rank t f free one = elim (Bool-cases (page == f)) [
      | inr ne ↦ rw ne refl
      | inl e ↦ rw e (at_page (ground arith) free)
    ]
      where
        at_page :
            page ≡ f
            → (rank (s.types page) ≡ 0) ⊎ (rank (s.types page) ≡ rank t)
            → rank t ≡ rank (s.types f)
        at_page q (inl z) = absurd (omega (arith, one, z, ap (λ x. rank (s.types x)) q))
        at_page q (inr z) = omega (arith, z, ap (λ x. rank (s.types x)) q)

    -- A declaration of a page leaves it so.
    pub declared-IsDue :
        (t : PageType) (page_entry val : ℕ)
        → (rank (s.types page) ≡ 0) ⊎ (rank (s.types page) ≡ rank t)
        → IsDue m s page_entry val
        → IsDue m (retyped s page t log) page_entry val
    declared-IsDue t page_entry val free (inl n) = inl n
    declared-IsDue t page_entry val free (inr (inl le)) = inr (inl le)
    declared-IsDue t page_entry val free (inr (inr (one, below))) =
        rw (kept_rank t (target (m.virt_to_phys page_entry)) free one)
          (inr (inr (one, λ two. retyped-Below m s page layered log t _ val free two (below two))))

    -- A removal of a page that is aside of the change leaves it so too.
    pub removed-IsDue :
        (c : Change)
        → IsAside m page (some c)
        → IsDue m s c.page_entry c.val
        → IsDue m (retyped s page unused log) c.page_entry c.val
    removed-IsDue c aside (inl n) = inl n
    removed-IsDue c aside (inr (inl le)) = inr (inl le)
    removed-IsDue c (apart, other) (inr (inr (one, below))) =
        rw (ne→== page (target (m.virt_to_phys c.page_entry)) (λ e. apart (sym e)))
          (inr (inr (one, λ two. linked m s page layered log _ _ (below two) (inr other))))
