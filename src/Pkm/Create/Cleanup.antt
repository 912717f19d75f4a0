-- ===== src/Pkm/Create/Cleanup.antt =====
-- The labels of `pkm_dev_ioctl_create_cntr`: what each gives back.
use cki_artifact.Base.{ℕ, ◌%◌, ◌<◌, ◌^◌, ◌≡◌, ◌≢◌, refl, ◌∙◌, ◌∷◌, none, ne→==, eq→==, ℤ}
use cki_artifact.Pkm.State.{Cntr}
use cki_artifact.Pkm.World.{Kernel, World, done, oops, page, slab, pinned, release, Log}
use cki_artifact.Pkm.Boot.{free_cpus, free_boot_params, with_boot_params}
use cki_artifact.Pkm.Boot.Pgtbl.{PointsTo, free_boot_pgtbl_lem}
use cki_artifact.Pkm.Boot.Params.{free_boot_params_lem}
use cki_artifact.Pkm.Create.{
  Created, out_free_cntr, out_put_mem_hpage, out_put_mem2_hpage, out_put_initrd_hpage,
  out_free_boot_pgtbl, out_free_boot_params, out_free_cpus,
}

-- A boot table in memory, of the two pages `pgtbl` and `pud`.
pub record Table (k : Kernel) (w : World) (pgtbl pud : ℕ) : Type 0 where
  pub there : pgtbl ≢ 0
  pub pud_there : pud ≢ 0
  pub low : k.virt_to_phys pud % 4096 ≡ 0
  pub fits : k.virt_to_phys pud < 2 ^ 52
  pub direct : k.phys_to_virt (k.virt_to_phys pud) ≡ pud
  pub points : PointsTo k w pgtbl pud

-- Boot parameters in memory, of the two pages `params` and `cmdline`, written for `c`.
pub record Params (k : Kernel) (w : World) (c : Cntr) (params cmdline : ℕ) : Type 0 where
  pub there : params ≢ 0
  pub cmdline_there : cmdline ≢ 0
  pub fits : k.virt_to_phys cmdline < 2 ^ 64
  pub direct : k.phys_to_virt (k.virt_to_phys cmdline) ≡ cmdline
  pub written : w.params params ≡ with_boot_params k c cmdline k.host_boot_params

-- The two read one place of the memory each, and so hold whatever else changes.
pub Table-mem :
    {k : Kernel} {w : World} {p q : ℕ} (w' : World)
    → w'.mem p ≡ w.mem p
    → Table k w p q
    → Table k w' p q
Table-mem w' e t = record {
  there = t.there;
  pud_there = t.pud_there;
  low = t.low;
  fits = t.fits;
  direct = t.direct;
  points = e ∙ t.points;
}

pub Table-log :
    {k : Kernel} {w : World} {p q : ℕ} (l : Log)
    → Table k w p q
    → Table k (record w { log = l }) p q
Table-log {w = w} l t = Table-mem (record w { log = l }) refl t

pub Params-mem :
    {k : Kernel} {w : World} {c : Cntr} {p q : ℕ} (w' : World)
    → w'.params p ≡ w.params p
    → Params k w c p q
    → Params k w' c p q
Params-mem w' e t = record {
  there = t.there;
  cmdline_there = t.cmdline_there;
  fits = t.fits;
  direct = t.direct;
  written = e ∙ t.written;
}

pub Params-log :
    {k : Kernel} {w : World} {c : Cntr} {p q : ℕ} (l : Log)
    → Params k w c p q
    → Params k (record w { log = l }) c p q
Params-log {w = w} l t = Params-mem (record w { log = l }) refl t

abbrev pub failed_with : ℤ → Created
failed_with r = record { result = r; cntr = none }

-- What the last labels add to the log.
abbrev pub pages_given : Cntr → Log → Log
pages_given c log =
    release (slab c.self)
    ∷ release (pinned c.mem_hpage)
    ∷ release (pinned c.mem2_hpage)
    ∷ release (pinned c.initrd_hpage)
    ∷ log

module _ (c : Cntr) (r : ℤ) (w : World) (there : c.self ≢ 0) where
  pub out_free_cntr_lem :
      out_free_cntr c r w ≡ done (failed_with r) (record w { log = release (slab c.self) ∷ w.log })
  unfolding out_free_cntr
  out_free_cntr_lem = rw (ne→== c.self 0 there)

  pub out_put_mem_hpage_lem :
      out_put_mem_hpage c r w
      ≡ done
          (failed_with r)
          (record w { log = release (slab c.self) ∷ release (pinned c.mem_hpage) ∷ w.log })
  unfolding out_put_mem_hpage out_free_cntr
  out_put_mem_hpage_lem = rw (ne→== c.self 0 there)

  pub out_put_mem2_hpage_lem :
      out_put_mem2_hpage c r w
      ≡ done (failed_with r) (record w {
        log =
            release (slab c.self)
            ∷ release (pinned c.mem_hpage)
            ∷ release (pinned c.mem2_hpage)
            ∷ w.log;
      })
  unfolding out_put_mem2_hpage out_put_mem_hpage out_free_cntr
  out_put_mem2_hpage_lem = rw (ne→== c.self 0 there)

  pub out_put_initrd_hpage_lem :
      out_put_initrd_hpage c r w ≡ done (failed_with r) (record w { log = pages_given c w.log })
  unfolding out_put_initrd_hpage out_put_mem2_hpage out_put_mem_hpage out_free_cntr
  out_put_initrd_hpage_lem = rw (ne→== c.self 0 there)

pub out_free_boot_pgtbl_lem :
    (k : Kernel) (c : Cntr) (r : ℤ) (w : World) (pud : ℕ)
    → c.self ≢ 0
    → Table k w c.boot_pgtbl pud
    → out_free_boot_pgtbl k c r w
      ≡ done (failed_with r) (record w {
        log = pages_given c (release (page c.boot_pgtbl) ∷ release (page pud) ∷ w.log);
      })
unfolding out_free_boot_pgtbl
out_free_boot_pgtbl_lem k c r w pud there t =
    rw (free_boot_pgtbl_lem k w c.boot_pgtbl pud t.there t.pud_there t.low t.fits t.direct t.points)
      (out_put_initrd_hpage_lem c r
        (record w { log = release (page c.boot_pgtbl) ∷ release (page pud) ∷ w.log }) there)

-- The log with the boot table given back, and with the boot parameters.
abbrev pub table_given : Cntr → (pud : ℕ) → Log → Log
table_given c pud log = pages_given c (release (page c.boot_pgtbl) ∷ release (page pud) ∷ log)

abbrev pub params_given : Cntr → (cmdline : ℕ) → Log → Log
params_given c cmdline log = release (page c.boot_params) ∷ release (page cmdline) ∷ log

module _ (k : Kernel) (c c' : Cntr) (r : ℤ) (pud cmdline : ℕ) (there : c.self ≢ 0)
    (cpus_there : c.cpus ≢ 0) where
  pub out_free_boot_params_lem :
      (w : World)
      → Table k w c.boot_pgtbl pud
      → Params k w c' c.boot_params cmdline
      → out_free_boot_params k c r w
        ≡ done (failed_with r) (record w { log = table_given c pud (params_given c cmdline w.log) })
  unfolding out_free_boot_params
  out_free_boot_params_lem w t ps =
      rw
        (free_boot_params_lem k c' w c.boot_params cmdline ps.there ps.cmdline_there ps.fits
          ps.direct ps.written)
        (out_free_boot_pgtbl_lem k c r (record w { log = params_given c cmdline w.log }) pud there
          (Table-log _ t))

  pub out_free_cpus_lem :
      (w : World)
      → Table k w c.boot_pgtbl pud
      → Params k w c' c.boot_params cmdline
      → out_free_cpus k c r w
        ≡ done (failed_with r) (record w {
          log = table_given c pud (params_given c cmdline (release (slab c.cpus) ∷ w.log));
        })
  unfolding out_free_cpus free_cpus
  out_free_cpus_lem w t ps =
      let l = release (slab c.cpus) ∷ w.log in
      rw (ne→== c.cpus 0 cpus_there)
        (out_free_boot_params_lem (record w { log = l }) (Table-log l t) (Params-log l ps))

-- Without boot parameters the label `out_free_cpus` faults.
pub out_free_cpus-null :
    (k : Kernel) (c : Cntr) (r : ℤ) (w : World)
    → c.cpus ≢ 0
    → c.boot_params ≡ 0
    → out_free_cpus k c r w ≡ oops (record w { log = release (slab c.cpus) ∷ w.log })
unfolding out_free_cpus out_free_boot_params free_cpus free_boot_params
out_free_cpus-null k c r w there e = rw (ne→== c.cpus 0 there, eq→== c.boot_params 0 e)
