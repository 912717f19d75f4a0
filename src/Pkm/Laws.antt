-- ===== src/Pkm/Laws.antt =====
-- What the kernel documents of its page allocator, direct map and eventfds, as hypotheses on `Kernel`.
use cki_artifact.Base.{ℕ, pos, ◌%◌, ◌^◌, ◌<◌, ◌≡◌, ◌≢◌, ◌∷◌}
use cki_artifact.Pkm.World.{Kernel, Log, page, acquire}

-- Pages are aligned, the one after a page is another, and the direct map leads from a page to its
-- 52-bit physical address and back.
pub record PageLaws (k : Kernel) : Type 0 where
  pub aligned : (log : Log) → k.get_free_page log % 4096 ≡ 0
  pub fresh :
      (log : Log)
      → k.get_free_page (acquire (page (k.get_free_page log)) ∷ log) ≢ k.get_free_page log
  pub phys_aligned : (log : Log) → k.virt_to_phys (k.get_free_page log) % 4096 ≡ 0
  pub phys_fits : (log : Log) → k.virt_to_phys (k.get_free_page log) < 2 ^ 52
  pub direct_map :
      (log : Log) → k.phys_to_virt (k.virt_to_phys (k.get_free_page log)) ≡ k.get_free_page log

-- The lookup of an eventfd answers with an error pointer or with an object, never with NULL.
abbrev pub NeverNull : Kernel → Type 0
NeverNull k = (log : Log) (n : ℕ) → k.eventfd_ctx_fdget log n ≢ pos 0
