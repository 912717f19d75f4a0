-- ===== src/Pkm/Create/Release.antt =====
-- What the release of a container's file gives back.
use cki_artifact.Base.{
  ℕ, ◌+◌, ◌≡◌, refl, ap, ◌∙◌, arith, inl, inr, ◌==◌, Bool-cases, if◌then◌else◌, ne→==, eq→==, pos,
  some, List, [], ◌∷◌,
}
use mathlib.Core.Path.{subst}
use cki_artifact.Pkm.State.{Cntr, VirtioQueue}
use cki_artifact.Pkm.World.{
  Kernel, World, Log, Resource, page, slab, pinned, eventfd, fd, file, release, wait_remove, done,
}
use cki_artifact.Pkm.Balance.{Holds, taken, given, count}
use cki_artifact.Pkm.Laws.{PageLaws}
use cki_artifact.Pkm.Outcome.{Ensures, Ensures-result}
use cki_artifact.Pkm.Boot.{free_cpus}
use cki_artifact.Pkm.Boot.Pgtbl.{free_boot_pgtbl_lem}
use cki_artifact.Pkm.Boot.Params.{free_boot_params_lem}
use cki_artifact.Pkm.Create.{Created, put_queue, deinit_virtio_net, cntr_release, create_cntr}
use cki_artifact.Pkm.Create.Settled.{
  with_params, NoEfds, IsLive, Crashed, Settled, nothing_left, cpus_left, held,
}
use cki_artifact.Pkm.Create.Balance.{create_cntr-Settled}

-- The eventfds of a queue, on top of other resources.
abbrev pub efds : VirtioQueue → List Resource → List Resource
efds q rs =
    let with_call = if q.call == 0 then rs else eventfd q.call ∷ rs in
    if q.kick == 0 then with_call else eventfd q.kick ∷ with_call

-- What comes between two logs takes nothing and gives back the resources of the list.
abbrev pub Gives : (before after : Log) → List Resource → Type 0
Gives before after rs =
    (r : Resource)
    → (taken r after ≡ taken r before) × (given r after ≡ given r before + count r rs)

-- A queue's eventfds count on top of the rest.
pub count-efds :
    (r : Resource) (q : VirtioQueue) (rs : List Resource)
    → count r (efds q rs) ≡ count r (efds q []) + count r rs
count-efds r q rs = elim (Bool-cases (q.kick == 0)) [
  | inl no_kick ↦ elim (Bool-cases (q.call == 0)) [
    | inl no_call ↦ rw (no_kick, no_call) (omega arith)
    | inr call ↦ rw (no_kick, call) (omega arith)
  ]
  | inr kick ↦ elim (Bool-cases (q.call == 0)) [
    | inl no_call ↦ rw (kick, no_call) (omega arith)
    | inr call ↦ rw (kick, call) (omega arith)
  ]
]

put_queue-Gives :
    (q : VirtioQueue) (w : World)
    → (log : Log) × (put_queue q w ≡ done tt (record w { log = log })) × Gives w.log log (efds q [])
unfolding put_queue
put_queue-Gives q w = elim (Bool-cases (q.kick == 0)) [
  | inl no_kick ↦ elim (Bool-cases (q.call == 0)) [
    | inl no_call ↦
        (w.log, rw (no_kick, no_call) refl, λ r. (refl, rw (no_kick, no_call) (omega arith)))
    | inr call ↦ (
      release (eventfd q.call) ∷ wait_remove q.call ∷ w.log,
      rw (no_kick, call) refl,
      λ r. (refl, rw (no_kick, call) (omega arith)),
    )
  ]
  | inr kick ↦ elim (Bool-cases (q.call == 0)) [
    | inl no_call ↦ (
      release (eventfd q.kick) ∷ w.log,
      rw (kick, no_call) refl,
      λ r. (refl, rw (kick, no_call) (omega arith)),
    )
    | inr call ↦ (
      release (eventfd q.call) ∷ wait_remove q.call ∷ release (eventfd q.kick) ∷ w.log,
      rw (kick, call) refl,
      λ r. (refl, rw (kick, call) (omega arith)),
    )
  ]
]

deinit_virtio_net-Gives :
    (c : Cntr) (w : World)
    → (log : Log) × (deinit_virtio_net c.virtio_net w ≡ done tt (record w { log = log }))
      × Gives w.log log (efds (c.virtio_net.queues 0) (efds (c.virtio_net.queues 1) []))
unfolding deinit_virtio_net
deinit_virtio_net-Gives c w =
    let q0 = c.virtio_net.queues 0 in
    let q1 = c.virtio_net.queues 1 in
    let (log, e, g) = put_queue-Gives q0 w in
    let (log', e', g') = put_queue-Gives q1 (record w { log = log }) in
    (
      log',
      rw (e, e') refl,
      λ r. ((g' r).0 ∙ (g r).0, omega (arith, (g r).1, (g' r).1, count-efds r q0 (efds q1 []))),
    )

-- The pages, the boot table, the boot parameters and the processors, given back on top of a log.
abbrev freed : Cntr → (pud cmdline : ℕ) → Log → Log
freed c pud cmdline log =
    release (slab c.cpus)
    ∷ release (page c.boot_params)
    ∷ release (page cmdline)
    ∷ release (page c.boot_pgtbl)
    ∷ release (page pud)
    ∷ release (pinned c.initrd_hpage)
    ∷ release (pinned c.mem2_hpage)
    ∷ release (pinned c.mem_hpage)
    ∷ log

-- The release of a container whose boot table and boot parameters are in memory returns, takes
-- nothing, and gives back exactly the container, its three pinned pages, the two pages of each of
-- these, its processors, and the eventfds that its two queues have.
pub cntr_release-Gives :
    (k : Kernel) (c : Cntr) (pud cmdline : ℕ) (w : World)
    → IsLive k w c pud cmdline
    → (log : Log) × (cntr_release k c w ≡ done tt (record w { log = log }))
      × Gives w.log log
          (efds (c.virtio_net.queues 0) (efds (c.virtio_net.queues 1) (with_params c pud cmdline)))
unfolding cntr_release free_cpus
cntr_release-Gives k c pud cmdline w live =
    let q0 = c.virtio_net.queues 0 in
    let q1 = c.virtio_net.queues 1 in
    let t = live.table in
    let ps = live.params in
    let l1 =
      release (pinned c.initrd_hpage)
      ∷ release (pinned c.mem2_hpage)
      ∷ release (pinned c.mem_hpage)
      ∷ w.log in
    let l2 = release (page c.boot_pgtbl) ∷ release (page pud) ∷ l1 in
    let (log, e, g) = deinit_virtio_net-Gives c (record w { log = freed c pud cmdline w.log }) in
    (
      release (slab c.self) ∷ log,
      rw
          (
            free_boot_pgtbl_lem k (record w { log = l1 }) c.boot_pgtbl pud t.there t.pud_there t.low
                t.fits t.direct t.points,
            free_boot_params_lem k live.made_for (record w { log = l2 }) c.boot_params cmdline
                ps.there ps.cmdline_there ps.fits ps.direct ps.written,
            ne→== c.cpus 0 live.cpus_there,
            e,
            ne→== c.self 0 live.there,
          )
          refl,
      λ r. (
        (g r).0,
        omega (
          arith,
          (g r).1,
          count-efds r q0 (efds q1 (with_params c pud cmdline)),
          count-efds r q1 (with_params c pud cmdline),
          count-efds r q0 (efds q1 []),
          count-efds r q1 [],
        ),
      ),
    )

pub no_efds :
    (c : Cntr) (rs : List Resource)
    → NoEfds c
    → efds (c.virtio_net.queues 0) (efds (c.virtio_net.queues 1) rs) ≡ rs
no_efds c rs (k0, c0, k1, c1) = rw (eq→== _ 0 k0, eq→== _ 0 c0, eq→== _ 0 k1, eq→== _ 0 c1) refl

-- Under the laws of the page allocator and the direct map (Pkm/Laws), a container that a request
-- has created can be released right away: the release returns, the request returned a descriptor,
-- and of all that the request took just this descriptor and a file are still held.
pub cntr_release-create_cntr :
    (k : Kernel) (w w' : World) (r : Created) (c : Cntr)
    → PageLaws k
    → create_cntr k w ≡ done r w'
    → r.cntr ≡ some c
    → (n f : ℕ) × (log : Log) × (r.result ≡ pos n)
      × (cntr_release k c w' ≡ done tt (record w' { log = log }))
      × Holds w.log log (file f ∷ fd n ∷ [])
cntr_release-create_cntr k w w' r c laws e some_c = released (
    Ensures-result r w'
      (subst (λ x. Ensures (Crashed w.log) (Settled k w.log) x) e (create_cntr-Settled k w laws)))
  where
    released :
        Settled k w.log r w'
        → (n f : ℕ) × (log : Log) × (r.result ≡ pos n)
          × (cntr_release k c w' ≡ done tt (record w' { log = log }))
          × Holds w.log log (file f ∷ fd n ∷ [])
    released (nothing_left z h) = absurd (cc (z, some_c))
    released (cpus_left p z h) = absurd (cc (z, some_c))
    released (held c' pud cmdline n f some_c' res live quiet h) =
        let same_c : c' ≡ c = cc (some_c, some_c') in
        let (log, eq, g) = cntr_release-Gives k c' pud cmdline w' live in
        (
          n,
          f,
          log,
          res,
          subst (λ x. cntr_release k x w' ≡ done tt (record w' { log = log })) same_c eq,
          λ q. omega (
            arith,
            h q,
            (g q).0,
            (g q).1,
            ap (count q) (no_efds c' (with_params c' pud cmdline) quiet),
          ),
        )
