-- ===== src/Monitor/Calls.antt =====
-- What one call of the initial walk does with the page that its entry names.
use cki_artifact.Base.{
  ℕ, zero, suc, ◌+◌, ◌^◌, ◌≤◌, ◌<◌, ◌≡◌, ◌≢◌, refl, arith, inl, inr, true, false, ne→==, some,
}
use cki_artifact.Monitor.State.{
  PageType, l1, rank, Machine, Monitor, done, update, nptepg, get_page_desc_ptr,
}
use cki_artifact.Monitor.Pages.{
  type_of, level, for_entries, is_large, walk_entry, declare_ptp_and_walk_pt_entries,
}
use cki_artifact.Monitor.Frames.{target, get_page_desc_ptr-cases}
use cki_artifact.Monitor.Growth.{with_types}

pub descriptor : (e : ℕ) → target e < 2 ^ 23 → get_page_desc_ptr e ≡ some (target e)
descriptor e lt = elim (get_page_desc_ptr-cases e) [
  | inl (h, eq) ↦ eq
  | inr (le, eq) ↦ absurd (omega arith)
]

pub level-rank : (d : ℕ) → d ≤ 3 → rank (level d) ≡ d + 1
unfolding level
level-rank zero h = refl
level-rank (suc zero) h = refl
level-rank (suc (suc zero)) h = refl
level-rank (suc (suc (suc d))) h = omega arith

module _ (m : Machine) (s : Monitor) where
  -- What one call of the walk does with the page that its entry names.
  module _ (e : ℕ) (types : ℕ → PageType) (lt : target e < 2 ^ 23) where
    pub walk-large :
        (d : ℕ)
        → is_large d e ≡ true
        → declare_ptp_and_walk_pt_entries m d e (with_types s types) ≡ done tt (with_types s types)
    unfolding declare_ptp_and_walk_pt_entries type_of
    walk-large zero large = rw (descriptor e lt, type_of, large) refl
    walk-large (suc d) large = rw (descriptor e lt, type_of, large) refl

    pub walk-zero :
        is_large zero e ≡ false
        → declare_ptp_and_walk_pt_entries m zero e (with_types s types)
          ≡ done tt (with_types s (update types (target e) l1))
    unfolding declare_ptp_and_walk_pt_entries type_of
    walk-zero small = rw (descriptor e lt, type_of, small) refl

    pub walk-used :
        (d : ℕ)
        → is_large (suc d) e ≡ false
        → rank (types (target e)) ≢ 0
        → declare_ptp_and_walk_pt_entries m (suc d) e (with_types s types)
          ≡ done tt (with_types s (update types (target e) (level (suc d))))
    unfolding declare_ptp_and_walk_pt_entries type_of
    walk-used d small used = rw (descriptor e lt, type_of, small, ne→== _ _ used) refl

    pub walk-new :
        (d : ℕ)
        → is_large (suc d) e ≡ false
        → rank (types (target e)) ≡ 0
        → declare_ptp_and_walk_pt_entries m (suc d) e (with_types s types)
          ≡ for_entries nptepg 0
              (walk_entry m e (declare_ptp_and_walk_pt_entries m d))
              (with_types s (update types (target e) (level (suc d))))
    unfolding declare_ptp_and_walk_pt_entries type_of
    walk-new d small free = rw (descriptor e lt, type_of, small, free) refl
