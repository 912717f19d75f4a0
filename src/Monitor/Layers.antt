-- ===== src/Monitor/Layers.antt =====
-- The order of the levels: every table that an entry points to is one level down. What the
-- monitor's operations do to it.
use cki_artifact.Base.{
  ℕ, ◌+◌, ◌*◌, ◌^◌, ◌≤◌, ◌<◌, ◌≡◌, sym, ap, ◌∙◌, arith, ◌⊎◌, inl, inr, true, ◌==◌, Bool-cases,
}
use mathlib.Core.Path.{subst}
use cki_artifact.Monitor.State.{PageType, rank, Machine, Monitor, DirectMap, done}
use cki_artifact.Monitor.Pages.{update_mapping}
use cki_artifact.Monitor.Frames.{target, IsPresent, IsLarge}
use cki_artifact.Monitor.Levels.{Allowed, page, large, table}
use cki_artifact.Monitor.Updates.{
  Permitted, absent, outside, checked, stored, Updated, changed, stopped, update_mapping-Updated,
}

-- An entry of a table of a rank maps a large page, or points to a table of the rank below.
abbrev pub Below : Monitor → (r e : ℕ) → Type 0
Below s r e = (IsLarge e × (r ≤ 3)) ⊎ ((target e < 2 ^ 23) × (rank (s.types (target e)) + 1 ≡ r))

module _ (m : Machine) where
  -- The entry at an index of the page at a frame.
  abbrev pub entry : Monitor → (f i : ℕ) → ℕ
  entry s f i = s.mem (m.phys_to_virt (f * 4096 + 8 * i))

  -- Each present entry of a page that is declared at a level above the last keeps to the order.
  abbrev pub IsLayered : Monitor → Type 0
  IsLayered s =
      (f i : ℕ)
      → f < 2 ^ 23
      → i < 512
      → 2 ≤ rank (s.types f)
      → IsPresent (entry s f i)
      → Below s (rank (s.types f)) (entry s f i)

  -- A change that may still be stored: it clears the entry, or the entry lies beyond the described
  -- frames, or in a declared page whose order it keeps.
  abbrev pub IsDue : Monitor → (page_entry val : ℕ) → Type 0
  IsDue s page_entry val =
      (¬ IsPresent val)
      ⊎ (2 ^ 23 ≤ target (m.virt_to_phys page_entry))
      ⊎ ((1 ≤ rank (s.types (target (m.virt_to_phys page_entry))))
          × (2 ≤ rank (s.types (target (m.virt_to_phys page_entry)))
              → Below s (rank (s.types (target (m.virt_to_phys page_entry)))) val))

  Allowed-Below :
      (s : Monitor) (t : PageType) (val : ℕ) → 2 ≤ rank t → Allowed s t val → Below s (rank t) val
  Allowed-Below s t val two (page e lt free) = absurd (omega (arith, ap rank e))
  Allowed-Below s t val two (large (inl e) l lt) = inl (l, omega (arith, ap rank e))
  Allowed-Below s t val two (large (inr e) l lt) = inl (l, omega (arith, ap rank e))
  Allowed-Below s t val two (table two' n lt r) = inr (lt, r)

  Allowed-rank : (s : Monitor) (t : PageType) (val : ℕ) → Allowed s t val → 1 ≤ rank t
  Allowed-rank s t val (page e lt free) = omega (arith, ap rank e)
  Allowed-rank s t val (large (inl e) l lt) = omega (arith, ap rank e)
  Allowed-rank s t val (large (inr e) l lt) = omega (arith, ap rank e)
  Allowed-rank s t val (table two n lt r) = omega arith

  -- What the check lets through may be stored.
  pub Permitted-IsDue :
      (s : Monitor) (page_entry val : ℕ) → Permitted m s page_entry val → IsDue s page_entry val
  Permitted-IsDue s page_entry val (absent n) = inl n
  Permitted-IsDue s page_entry val (outside le) = inr (inl le)
  Permitted-IsDue s page_entry val (checked lt a) =
      let t = s.types (target (m.virt_to_phys page_entry)) in
      inr (inr (Allowed-rank s t val a, λ two. Allowed-Below s t val two a))

  module _ (direct : DirectMap m) where
    -- The frame behind the address of an entry.
    entry_frame :
        (f i : ℕ)
        → f < 2 ^ 23
        → i < 512
        → target (m.virt_to_phys (m.phys_to_virt (f * 4096 + 8 * i))) ≡ f
    entry_frame f i hf hi = omega (arith, direct.back (f * 4096 + 8 * i))

    pub stored-IsLayered :
        (s : Monitor) (page_entry val : ℕ)
        → IsLayered s
        → IsDue s page_entry val
        → IsLayered (stored s page_entry val)
    stored-IsLayered s page_entry val layered due f i hf hi two present =
        elim (Bool-cases (page_entry == m.phys_to_virt (f * 4096 + 8 * i))) [
          | inl e ↦ rw e (at_entry (rw e at present) (ground arith) due)
          | inr ne ↦ rw ne (layered f i hf hi two (rw ne at present))
        ]
      where
        at_entry :
            IsPresent val
            → page_entry ≡ m.phys_to_virt (f * 4096 + 8 * i)
            → IsDue s page_entry val
            → Below s (rank (s.types f)) val
        at_entry pr e (inl n) = absurd (n pr)
        at_entry pr e (inr (inl le)) =
            absurd (omega (arith, entry_frame f i hf hi, ap (λ t. target (m.virt_to_phys t)) e))
        at_entry pr e (inr (inr (one, below))) =
            let same : target (m.virt_to_phys page_entry) ≡ f =
              ap (λ t. target (m.virt_to_phys t)) e ∙ entry_frame f i hf hi in
            subst (λ x. Below s (rank (s.types x)) val) same
              (below (subst (λ x. 2 ≤ rank (s.types x)) (sym same) two))

    -- A change of an entry that takes place, once the monitor is initialised, keeps the levels in
    -- order: each present entry of a page declared above the last level maps a large page, at the
    -- two middle levels, or points to a page declared one level down. Condition: the kernel's
    -- direct map is one.
    pub update_mapping-IsLayered :
        (s s' : Monitor) (page_entry val : ℕ)
        → s.mmu_is_initialized ≡ true
        → IsLayered s
        → update_mapping m page_entry val s ≡ done tt s'
        → IsLayered s'
    update_mapping-IsLayered s s' page_entry val on layered e =
        kept (update_mapping-Updated m s page_entry val on)
      where
        kept : Updated m s page_entry val (update_mapping m page_entry val s) → IsLayered s'
        kept (changed p e') =
            let same : stored s page_entry val ≡ s' = cc (e, e') in
            subst (λ x. IsLayered x) same
              (stored-IsLayered s page_entry val layered (Permitted-IsDue s page_entry val p))
        kept (stopped n (inl e')) = absurd (cc (e, e'))
        kept (stopped n (inr e')) = absurd (cc (e, e'))
