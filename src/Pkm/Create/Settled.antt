-- ===== src/Pkm/Create/Settled.antt =====
-- How a creation may end for the resources that it takes, the labels that give them back, and its
-- last two steps.
use cki_artifact.Base.{ℕ, ◌≡◌, ◌≢◌, refl, arith, inl, inr, ℤ, pos, none, some, List, [], ◌∷◌}
use cki_artifact.Pkm.State.{Cntr}
use cki_artifact.Pkm.World.{
  Kernel, World, Log, Resource, page, slab, pinned, fd, file, acquire, release, Run,
}
use cki_artifact.Pkm.Balance.{Holds}
use cki_artifact.Pkm.Outcome.{Ensures, on_done}
use cki_artifact.Pkm.Create.{
  Created, out_free_cntr, out_put_mem_hpage, out_put_mem2_hpage, out_put_initrd_hpage, open_file,
  reserve_fd,
}
use cki_artifact.Pkm.Create.Cleanup.{
  Table, Params, Table-log, Params-log, pages_given, out_free_cntr_lem, out_put_mem_hpage_lem,
  out_put_mem2_hpage_lem, out_put_initrd_hpage_lem, out_free_boot_params_lem, out_free_cpus_lem,
}
use cki_artifact.Pkm.Create.Failures.{open_file-cases, reserve_fd-cases}

-- What is held on the way: the container and its pages, the boot table, the processors, and the
-- boot parameters.
abbrev pub pins : Cntr → List Resource
pins c = pinned c.initrd_hpage ∷ pinned c.mem2_hpage ∷ pinned c.mem_hpage ∷ slab c.self ∷ []

abbrev pub with_pgtbl : Cntr → (pud : ℕ) → List Resource
with_pgtbl c pud = page c.boot_pgtbl ∷ page pud ∷ pins c

abbrev pub with_cpus : Cntr → (pud : ℕ) → List Resource
with_cpus c pud = slab c.cpus ∷ with_pgtbl c pud

abbrev pub with_params : Cntr → (pud cmdline : ℕ) → List Resource
with_params c pud cmdline = page c.boot_params ∷ page cmdline ∷ with_cpus c pud

-- No queue of the container has an eventfd.
abbrev pub NoEfds : Cntr → Type 0
NoEfds c =
    ((c.virtio_net.queues 0).kick ≡ 0)
    × ((c.virtio_net.queues 0).call ≡ 0)
    × ((c.virtio_net.queues 1).kick ≡ 0)
    × ((c.virtio_net.queues 1).call ≡ 0)

-- A container whose boot table and boot parameters are in memory.
pub record IsLive (k : Kernel) (w : World) (c : Cntr) (pud cmdline : ℕ) : Type 0 where
  pub made_for : Cntr
  pub there : c.self ≢ 0
  pub cpus_there : c.cpus ≢ 0
  pub table : Table k w c.boot_pgtbl pud
  pub params : Params k w made_for c.boot_params cmdline

pub IsLive-log :
    {k : Kernel} {w : World} {c : Cntr} {pud cmdline : ℕ} (l : Log)
    → IsLive k w c pud cmdline
    → IsLive k (record w { log = l }) c pud cmdline
IsLive-log l live = record {
  made_for = live.made_for;
  there = live.there;
  cpus_there = live.cpus_there;
  table = Table-log l live.table;
  params = Params-log l live.params;
}

-- How a creation ends over the log `base`. A failure holds nothing on top, or one array of
-- processors; a success holds just what the container consists of.
pub data Settled (k : Kernel) (base : Log) (r : Created) (w : World) : Type 0 where
  nothing_left : r.cntr ≡ none → Holds base w.log [] → Settled k base r w
  cpus_left : (cpus : ℕ) → r.cntr ≡ none → Holds base w.log (slab cpus ∷ []) → Settled k base r w
  held :
      (c : Cntr) (pud cmdline n f : ℕ)
      → r.cntr ≡ some c
      → r.result ≡ pos n
      → IsLive k w c pud cmdline
      → NoEfds c
      → Holds base w.log (file f ∷ fd n ∷ with_params c pud cmdline)
      → Settled k base r w

-- A fault leaves the container, its pages and its boot table held.
pub data Crashed (base : Log) (w : World) : Type 0 where
  table_left : (c : Cntr) (pud : ℕ) → Holds base w.log (with_pgtbl c pud) → Crashed base w

module _ (k : Kernel) (base : Log) where
  abbrev pub Ends : Run Created → Type 0
  Ends r = Ensures (Crashed base) (Settled k base) r

  -- The labels that give back what was pinned.
  module _ (c : Cntr) (r : ℤ) (w : World) (there : c.self ≢ 0) where
    pub out_free_cntr-Ends : Holds base w.log (slab c.self ∷ []) → Ends (out_free_cntr c r w)
    out_free_cntr-Ends h = rw (out_free_cntr_lem c r w there) (
        on_done {w = record w { log = release (slab c.self) ∷ w.log }}
          (nothing_left refl λ r. omega (arith, h r)))

    pub out_put_mem_hpage-Ends :
        Holds base w.log (pinned c.mem_hpage ∷ slab c.self ∷ []) → Ends (out_put_mem_hpage c r w)
    out_put_mem_hpage-Ends h = rw (out_put_mem_hpage_lem c r w there) (
        on_done
          {w = record w { log = release (slab c.self) ∷ release (pinned c.mem_hpage) ∷ w.log }}
          (nothing_left refl λ r. omega (arith, h r)))

    pub out_put_mem2_hpage-Ends :
        Holds base w.log (pinned c.mem2_hpage ∷ pinned c.mem_hpage ∷ slab c.self ∷ [])
        → Ends (out_put_mem2_hpage c r w)
    out_put_mem2_hpage-Ends h = rw (out_put_mem2_hpage_lem c r w there) (
        on_done
          {w = record w {
            log =
                release (slab c.self)
                ∷ release (pinned c.mem_hpage)
                ∷ release (pinned c.mem2_hpage)
                ∷ w.log;
          }}
          (nothing_left refl λ r. omega (arith, h r)))

    pub out_put_initrd_hpage-Ends : Holds base w.log (pins c) → Ends (out_put_initrd_hpage c r w)
    out_put_initrd_hpage-Ends h = rw (out_put_initrd_hpage_lem c r w there) (
        on_done {w = record w { log = pages_given c w.log }}
          (nothing_left refl λ r. omega (arith, h r)))

  open_file-Ends :
      (c : Cntr) (pud cmdline m : ℕ) (w : World)
      → IsLive k w c pud cmdline
      → NoEfds c
      → Holds base w.log (fd m ∷ with_params c pud cmdline)
      → Ends (open_file k c m w)
  open_file-Ends c pud cmdline m w live quiet h = elim (open_file-cases k c m w) [
    | inl (f, e) ↦ rw e (
        on_done
          (held c pud cmdline m f refl refl (IsLive-log _ live) quiet λ r. omega (arith, h r)))
    | inr (z, e) ↦
        let l = release (fd m) ∷ w.log in
        rw
          (
            e,
            out_free_cpus_lem k c live.made_for z pud cmdline live.there live.cpus_there
                (record w { log = l }) (Table-log l live.table) (Params-log l live.params),
          )
          (on_done (nothing_left refl λ r. omega (arith, h r)))
  ]

  pub reserve_fd-Ends :
      (c : Cntr) (pud cmdline : ℕ) (w : World)
      → IsLive k w c pud cmdline
      → NoEfds c
      → Holds base w.log (with_params c pud cmdline)
      → Ends (reserve_fd k c w)
  reserve_fd-Ends c pud cmdline w live quiet h = elim (reserve_fd-cases k c w) [
    | inl (m, e) ↦
        let l = acquire (fd m) ∷ w.log in
        rw e (
          open_file-Ends c pud cmdline m (record w { log = l }) (IsLive-log l live) quiet
            λ r. omega (arith, h r))
    | inr (z, e) ↦
        rw
          (
            e,
            out_free_boot_params_lem k c live.made_for z pud cmdline live.there live.cpus_there w
                live.table live.params,
          )
          (on_done (cpus_left c.cpus refl λ r. omega (arith, h r)))
  ]
