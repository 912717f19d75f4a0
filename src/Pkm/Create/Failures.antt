-- ===== src/Pkm/Create/Failures.antt =====
-- How a creation may end for the counter of identifiers, and each way out of a failed one.
use cki_artifact.Base.{
  ℕ, ◌+◌, ◌≤◌, ◌≡◌, refl, ◌⊎◌, inl, inr, ◌==◌, if_both, u32, ℤ, pos, negsuc, none, some, ◌∷◌,
}
use cki_artifact.Pkm.State.{Cntr}
use cki_artifact.Pkm.World.{Kernel, World, Run, done, acquire, release, fd, file, fd_install}
use cki_artifact.Pkm.Outcome.{Ensures, on_done, on_oops, Ensures-if, Ensures-and_then}
use cki_artifact.Pkm.Boot.{free_page, free_boot_pgtbl, free_boot_params, free_cpus}
use cki_artifact.Pkm.Create.{
  Created, kfree, out_free_cntr, out_put_mem_hpage, out_put_mem2_hpage, out_put_initrd_hpage,
  out_free_boot_pgtbl, out_free_boot_params, out_free_cpus, out_put_fd, open_file, reserve_fd,
}

ℤ-cases : (z : ℤ) → ((n : ℕ) × (z ≡ pos n)) ⊎ ((n : ℕ) × (z ≡ negsuc n))
ℤ-cases (pos n) = inl (n, refl)
ℤ-cases (negsuc n) = inr (n, refl)

-- The last two steps of a creation, by what the kernel answers.
module _ (k : Kernel) (c : Cntr) where
  pub open_file-cases :
      (m : ℕ) (w : World)
      → ((f : ℕ) × (open_file k c m w
            ≡ done
                (record { result = pos m; cntr = some c })
                (record w { log = fd_install m f ∷ acquire (file f) ∷ w.log })))
        ⊎ ((z : ℤ) × (open_file k c m w
              ≡ out_free_cpus k c z (record w { log = release (fd m) ∷ w.log })))
  unfolding open_file out_put_fd
  open_file-cases m w = elim (ℤ-cases (k.anon_inode_getfile w.log)) [
    | inl (f, e) ↦ inl (f, rw (e, open_file))
    | inr (z, e) ↦ inr (negsuc z, rw (e, open_file))
  ]

  pub reserve_fd-cases :
      (w : World)
      → ((m : ℕ) × (reserve_fd k c w ≡ open_file k c m (record w { log = acquire (fd m) ∷ w.log })))
        ⊎ ((z : ℤ) × (reserve_fd k c w ≡ out_free_boot_params k c z w))
  unfolding reserve_fd
  reserve_fd-cases w = elim (ℤ-cases (k.get_unused_fd w.log)) [
    | inl (m, e) ↦ inl (m, rw (e, reserve_fd))
    | inr (z, e) ↦ inr (negsuc z, rw (e, reserve_fd))
  ]

module _ (n : ℕ) where
  -- The counter is as it was, at `n`, or one further.
  abbrev pub Counted : World → Type 0
  Counted w = (w.next_cntr_pcid ≡ n) ⊎ (w.next_cntr_pcid ≡ u32 (n + 1))

  -- A creation that failed left no container; one that succeeded took the number `n`.
  pub data Numbered (r : Created) (w : World) : Type 0 where
    failed : r.cntr ≡ none → Counted w → Numbered r w
    numbered :
        (c : Cntr)
        → r.cntr ≡ some c
        → c.pcid ≡ n
        → n ≤ 100
        → w.next_cntr_pcid ≡ u32 (n + 1)
        → Numbered r w

  abbrev pub Ends : Run Created → Type 0
  Ends r = Ensures Counted Numbered r

  abbrev Quiet : {A : Type 0} → Run A → Type 0
  Quiet r = Ensures Counted (λ _ w. Counted w) r

  kfree-Quiet : (p : ℕ) (w : World) → Counted w → Quiet (kfree p w)
  kfree-Quiet p w h = search (Ensures-if, on_done)

  pub out_free_cntr-Ends : (c : Cntr) (r : ℤ) (w : World) → Counted w → Ends (out_free_cntr c r w)
  unfolding out_free_cntr
  out_free_cntr-Ends c r w h =
      Ensures-and_then _ _ (kfree-Quiet c.self w h) λ _ _ h'. on_done (failed refl h')

  pub out_put_mem_hpage-Ends :
      (c : Cntr) (r : ℤ) (w : World) → Counted w → Ends (out_put_mem_hpage c r w)
  unfolding out_put_mem_hpage
  out_put_mem_hpage-Ends c r w h = out_free_cntr-Ends c r _ h

  pub out_put_mem2_hpage-Ends :
      (c : Cntr) (r : ℤ) (w : World) → Counted w → Ends (out_put_mem2_hpage c r w)
  unfolding out_put_mem2_hpage
  out_put_mem2_hpage-Ends c r w h = out_put_mem_hpage-Ends c r _ h

  pub out_put_initrd_hpage-Ends :
      (c : Cntr) (r : ℤ) (w : World) → Counted w → Ends (out_put_initrd_hpage c r w)
  unfolding out_put_initrd_hpage
  out_put_initrd_hpage-Ends c r w h = out_put_mem2_hpage-Ends c r _ h

module _ (n : ℕ) (k : Kernel) where
  free_page-Quiet : (p : ℕ) (w : World) → Counted n w → Quiet n (free_page k p w)
  unfolding free_page
  free_page-Quiet p w h = search (Ensures-if, on_done)

  free_boot_pgtbl-Quiet : (p : ℕ) (w : World) → Counted n w → Quiet n (free_boot_pgtbl k p w)
  unfolding free_boot_pgtbl
  free_boot_pgtbl-Quiet p w h =
      if_both (Quiet n) (p == 0) (on_oops h)
        (Ensures-and_then _ _ (free_page-Quiet _ w h) λ _ w' h'. free_page-Quiet p w' h')

  free_boot_params-Quiet : (p : ℕ) (w : World) → Counted n w → Quiet n (free_boot_params k p w)
  unfolding free_boot_params
  free_boot_params-Quiet p w h =
      if_both (Quiet n) (p == 0) (on_oops h)
        (Ensures-and_then _ _ (free_page-Quiet _ w h) λ _ w' h'. free_page-Quiet p w' h')

  free_cpus-Quiet : (p : ℕ) (w : World) → Counted n w → Quiet n (free_cpus k p w)
  unfolding free_cpus
  free_cpus-Quiet p w h = search (Ensures-if, on_done)

  pub out_free_boot_pgtbl-Ends :
      (c : Cntr) (r : ℤ) (w : World) → Counted n w → Ends n (out_free_boot_pgtbl k c r w)
  unfolding out_free_boot_pgtbl
  out_free_boot_pgtbl-Ends c r w h =
      Ensures-and_then _ _ (free_boot_pgtbl-Quiet c.boot_pgtbl w h)
        λ _ w' h'. out_put_initrd_hpage-Ends n c r w' h'

  pub out_free_boot_params-Ends :
      (c : Cntr) (r : ℤ) (w : World) → Counted n w → Ends n (out_free_boot_params k c r w)
  unfolding out_free_boot_params
  out_free_boot_params-Ends c r w h =
      Ensures-and_then _ _ (free_boot_params-Quiet c.boot_params w h)
        λ _ w' h'. out_free_boot_pgtbl-Ends c r w' h'

  pub out_free_cpus-Ends :
      (c : Cntr) (r : ℤ) (w : World) → Counted n w → Ends n (out_free_cpus k c r w)
  unfolding out_free_cpus
  out_free_cpus-Ends c r w h =
      Ensures-and_then _ _ (free_cpus-Quiet c.cpus w h)
        λ _ w' h'. out_free_boot_params-Ends c r w' h'
