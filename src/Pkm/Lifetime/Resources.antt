-- ===== src/Pkm/Lifetime/Resources.antt =====
-- What is held while a container lives: what its release gives back, and the eventfds that requests
-- have overwritten.
use cki_artifact.Base.{
  ℕ, List, [], ◌∷◌, ◌++◌, ◌+◌, ◌<◌, ◌≡◌, ◌≢◌, refl, ap, ◌∙◌, arith, inl, inr, ◌⊎◌, true, pos, ne→==,
}
use cki_artifact.Pkm.State.{Cntr, VirtioQueue}
use cki_artifact.Pkm.World.{Kernel, Resource, Log, eventfd}
use cki_artifact.Pkm.Balance.{taken, given, count}
use cki_artifact.Pkm.Laws.{NeverNull}
use cki_artifact.Pkm.Create.Settled.{with_params}
use cki_artifact.Pkm.Create.Release.{efds, count-efds}
use cki_artifact.Pkm.Vring.Balance.{with_efds, IsFetched}
use cki_artifact.Pkm.Threads.{Threads}
use cki_artifact.Pkm.Lifetime.Moves.{Kin, Moved, keeps, wires}

below_two : (i : ℕ) → i < 2 → (i ≡ 0) ⊎ (i ≡ 1)
below_two i h = ground arith

pub IsFetched-there : (k : Kernel) (e : ℕ) → NeverNull k → IsFetched k e → e ≢ 0
IsFetched-there k e law (log, n, h) z = law log n (h ∙ ap pos z)

-- What the release of a container gives back.
abbrev pub owned : Cntr → (pud cmdline : ℕ) → List Resource
owned c pud cmdline =
    efds (c.virtio_net.queues 0) (efds (c.virtio_net.queues 1) (with_params c pud cmdline))

pub count_++ : (r : Resource) (xs ys : List Resource) → count r (xs ++ ys) ≡ count r xs + count r ys
count_++ r [] ys = omega arith
count_++ r (x ∷ xs) ys = omega (arith, count_++ r xs ys)

-- The container is there, at the boot table and boot parameters that it had, and on top of `base`
-- just its resources and those of the list are held.
pub record Owns (base : Log) (pgtbl params : ℕ) (c : Cntr) (pud cmdline : ℕ) (rest : List Resource)
    (log : Log) : Type 0 where
  pub there : c.self ≢ 0
  pub cpus_there : c.cpus ≢ 0
  pub same_pgtbl : c.boot_pgtbl ≡ pgtbl
  pub same_params : c.boot_params ≡ params
  pub held :
      (r : Resource)
      → taken r log + given r base
        ≡ given r log + taken r base + count r (owned c pud cmdline) + count r rest

owned-Kin : (c c' : Cntr) (pud cmdline : ℕ) → Kin c c' → owned c' pud cmdline ≡ owned c pud cmdline
owned-Kin c c' pud cmdline same =
    let (k0, c0) = same.wired 0 in
    let (k1, c1) = same.wired 1 in
    rw
      (
        k0, c0, k1, c1, same.self_same, same.mem_same, same.mem2_same, same.initrd_same,
        same.pgtbl_same, same.params_same, same.cpus_same,
      )
      refl

efds_there :
    (r : Resource) (q : VirtioQueue)
    → q.kick ≢ 0
    → q.call ≢ 0
    → count r (efds q []) ≡ count r (eventfd q.call ∷ eventfd q.kick ∷ [])
efds_there r q hk hc = rw (ne→== q.kick 0 hk, ne→== q.call 0 hc) (omega arith)

-- New eventfds take the place of the old ones.
owned-with_efds :
    (r : Resource) (c : Cntr) (idx kick call pud cmdline : ℕ)
    → idx < 2
    → kick ≢ 0
    → call ≢ 0
    → count r (owned (with_efds c idx kick call) pud cmdline)
        + count r (efds (c.virtio_net.queues idx) [])
      ≡ count r (owned c pud cmdline) + count r (eventfd call ∷ eventfd kick ∷ [])
owned-with_efds r c idx kick call pud cmdline fits hk hc =
    let q0 = c.virtio_net.queues 0 in
    let q1 = c.virtio_net.queues 1 in
    let ps = with_params c pud cmdline in
    let q = record (c.virtio_net.queues idx) { wait = true; pt = true; kick = kick; call = call } in
    let new = efds_there r q hk hc in
    elim (below_two idx fits) [
      | inl e ↦ rw e (omega (arith, new, count-efds r q0 (efds q1 ps), count-efds r q (efds q1 ps)))
      | inr e ↦ rw e (
          omega (
            arith,
            new,
            count-efds r q0 (efds q1 ps),
            count-efds r q0 (efds q ps),
            count-efds r q1 ps,
            count-efds r q ps,
          ))
    ]

-- A turn keeps the container, and what it has overwritten is held on top.
pub Owns-Moved :
    (k : Kernel) (base : Log) (pgtbl params pud cmdline : ℕ) (rest : List Resource) (s : Threads)
    (more : List Resource) (q : Threads)
    → NeverNull k
    → Owns base pgtbl params s.cntr pud cmdline rest s.world.log
    → Moved k s more q
    → Owns base pgtbl params q.cntr pud cmdline (more ++ rest) q.world.log
Owns-Moved k base pgtbl params pud cmdline rest s _ _ law h (keeps q kin took) = record {
  there = rw kin.self_same h.there;
  cpus_there = rw kin.cpus_same h.cpus_there;
  same_pgtbl = kin.pgtbl_same ∙ h.same_pgtbl;
  same_params = kin.params_same ∙ h.same_params;
  held = λ r. rw (owned-Kin s.cntr q.cntr pud cmdline kin) (omega (arith, h.held r, took r));
}
Owns-Moved k base pgtbl params pud cmdline rest s _ _ law h
      (wires kick call w' place fits gk gc took) =
    let idx = (k.copy_vring_efds s.world.log).1.idx in
    record {
      there = h.there;
      cpus_there = h.cpus_there;
      same_pgtbl = h.same_pgtbl;
      same_params = h.same_params;
      held = λ r. omega (
        arith,
        h.held r,
        took r,
        owned-with_efds r s.cntr idx kick call pud cmdline fits (IsFetched-there k kick law gk)
            (IsFetched-there k call law gc),
        count_++ r (efds (s.cntr.virtio_net.queues idx) []) rest,
      );
    }
