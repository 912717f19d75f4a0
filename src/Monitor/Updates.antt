-- ===== src/Monitor/Updates.antt =====
-- Which changes of an entry the monitor lets through: `update_mapping` against a specification.
use cki_artifact.Base.{ℕ, ◌^◌, ◌≤◌, ◌<◌, ◌≡◌, refl, ap, arith, ◌⊎◌, inl, inr, true, if◌then◌else◌}
use cki_artifact.Monitor.State.{
  Machine, Monitor, Run, done, bug, fault, and_then, page_entry_store, update,
}
use cki_artifact.Monitor.Pages.{pt_update_is_valid, update_mapping}
use cki_artifact.Monitor.Frames.{target, IsPresent, get_page_desc_ptr-cases, IsPresent-cases}
use cki_artifact.Monitor.Levels.{Allowed, Checked, passes, stops, check_level-Checked}

-- The specification of a change: it takes place where the new entry is not present, where the
-- entry's own page has no descriptor, or where the page's type allows it.
pub data Permitted (m : Machine) (s : Monitor) (page_entry val : ℕ) : Type 0 where
  absent : ¬ IsPresent val → Permitted m s page_entry val
  outside : 2 ^ 23 ≤ target (m.virt_to_phys page_entry) → Permitted m s page_entry val
  checked :
      target (m.virt_to_phys page_entry) < 2 ^ 23
      → Allowed s (s.types (target (m.virt_to_phys page_entry))) val
      → Permitted m s page_entry val

abbrev pub stored : Monitor → (page_entry val : ℕ) → Monitor
stored s page_entry val = record s { mem = update s.mem page_entry val }

pub data Updated (m : Machine) (s : Monitor) (page_entry val : ℕ) (r : Run (Unit {0}))
    : Type 0 where
  changed :
      Permitted m s page_entry val
      → r ≡ done tt (stored s page_entry val)
      → Updated m s page_entry val r
  stopped :
      ¬ Permitted m s page_entry val → (r ≡ bug s) ⊎ (r ≡ fault s) → Updated m s page_entry val r

module _ (m : Machine) (s : Monitor) (page_entry val : ℕ) where
  pub pt_update_is_valid-Checked :
      Checked (Permitted m s page_entry val) s (pt_update_is_valid m page_entry val s)
  unfolding pt_update_is_valid
  pt_update_is_valid-Checked = elim (IsPresent-cases val) [
    | inr (n, e) ↦ rw e (passes (absent λ p. omega arith) refl)
    | inl (p, e) ↦ elim (get_page_desc_ptr-cases (m.virt_to_phys page_entry)) [
      | inr (out, e') ↦ rw (e, e') (passes (outside out) refl)
      | inl (lt, e') ↦
          rw (e, e')
            (with_type p lt
              (check_level-Checked s val (s.types (target (m.virt_to_phys page_entry)))))
    ]
  ]
    where
      not_permitted :
          IsPresent val
          → target (m.virt_to_phys page_entry) < 2 ^ 23
          → ¬ Allowed s (s.types (target (m.virt_to_phys page_entry))) val
          → ¬ Permitted m s page_entry val
      not_permitted p lt refused (absent n) = n p
      not_permitted p lt refused (outside le) = omega arith
      not_permitted p lt refused (checked lt' a) = refused a

      with_type :
          {r : Run (Unit {0})}
          → IsPresent val
          → target (m.virt_to_phys page_entry) < 2 ^ 23
          → Checked (Allowed s (s.types (target (m.virt_to_phys page_entry))) val) s r
          → Checked (Permitted m s page_entry val) s r
      with_type p lt (passes a e) = passes (checked lt a) e
      with_type p lt (stops refused e) = stops (not_permitted p lt refused) e

  -- Once the monitor is initialised, update_mapping stores the value exactly where the
  -- specification permits it, and stops the kernel, with nothing changed, where it does not. The
  -- specification permits a value that is not present, a change of a word beyond the 2^23 described
  -- frames, and otherwise what the type of the page that holds the entry allows: in a last-level
  -- page a page that is no page table, in a middle one a large page or a table one level down, in a
  -- top one such a table, where what is mapped ends below 2^35.
  pub update_mapping-Updated :
      s.mmu_is_initialized ≡ true → Updated m s page_entry val (update_mapping m page_entry val s)
  unfolding update_mapping page_entry_store
  update_mapping-Updated on = rw start (then_store pt_update_is_valid-Checked)
    where
      start :
          update_mapping m page_entry val s
          ≡ and_then (pt_update_is_valid m page_entry val s) λ _. page_entry_store page_entry val
      start =
          ap
            (λ b.
              and_then ((if b then pt_update_is_valid m page_entry val else done tt) s)
                λ _. page_entry_store page_entry val)
            on

      then_store :
          {r : Run (Unit {0})}
          → Checked (Permitted m s page_entry val) s r
          → Updated m s page_entry val (and_then r λ _. page_entry_store page_entry val)
      then_store (passes p e) = rw e (changed p refl)
      then_store (stops n (inl e)) = rw e (stopped n (inl refl))
      then_store (stops n (inr e)) = rw e (stopped n (inr refl))
