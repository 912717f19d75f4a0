-- ===== src/Pkm/Lifetime/End.antt =====
-- The end of a container's life: its release after any turns of the launcher's threads.
use cki_artifact.Base.{ℕ, List, [], ◌∷◌, ◌++◌, ◌≡◌, refl, sym, ap, arith, pos, some}
use mathlib.Core.Path.{subst}
use mathlib.Core.List.{append_assoc}
use cki_artifact.Pkm.State.{Cntr}
use cki_artifact.Pkm.World.{Kernel, World, Log, Resource, fd, file, done}
use cki_artifact.Pkm.Balance.{count, Holds}
use cki_artifact.Pkm.Laws.{PageLaws, NeverNull}
use cki_artifact.Pkm.Outcome.{Ensures, Ensures-result}
use cki_artifact.Pkm.Create.{Created, create_cntr, cntr_release}
use cki_artifact.Pkm.Create.Settled.{
  with_params, IsLive, Crashed, Settled, nothing_left, cpus_left, held,
}
use cki_artifact.Pkm.Create.Cleanup.{Table, Params, Table-mem, Params-mem}
use cki_artifact.Pkm.Create.Balance.{create_cntr-Settled}
use cki_artifact.Pkm.Create.Release.{no_efds, cntr_release-Gives}
use cki_artifact.Pkm.Threads.{outside, Threads, Turns, begin, turn}
use cki_artifact.Pkm.Lifetime.Moves.{Turn-Moved}
use cki_artifact.Pkm.Lifetime.Resources.{Owns, Owns-Moved}

module _ (k : Kernel) (base : Log) (pgtbl params : ℕ) (c₀ : Cntr) (pud cmdline : ℕ)
    (rest : List Resource) (w₀ : World) (law : NeverNull k)
    (h : Owns base pgtbl params c₀ pud cmdline rest w₀.log) where
  -- What is held after turns.
  Turns-Owns :
      (lost : List Resource) (q : Threads)
      → Turns k (record { cntr = c₀; world = w₀; place = λ _. outside }) lost q
      → Owns base pgtbl params q.cntr pud cmdline (lost ++ rest) q.world.log
  Turns-Owns _ _ begin = h
  Turns-Owns _ _ (turn {lost} {more} {q} {r} ts t) =
      subst (λ l. Owns base pgtbl params r.cntr pud cmdline l r.world.log)
        (sym (append_assoc more lost rest))
        (Owns-Moved k base pgtbl params pud cmdline (lost ++ rest) q more r law
          (Turns-Owns lost q ts) (Turn-Moved k q more r t))

-- The release at the end, where the boot table and the parameters are in memory.
released :
    (k : Kernel) (base : Log) (pgtbl params : ℕ) (c made_for : Cntr) (pud cmdline : ℕ)
    (rest : List Resource) (w : World)
    → Table k w pgtbl pud
    → Params k w made_for params cmdline
    → Owns base pgtbl params c pud cmdline rest w.log
    → (log : Log) × (cntr_release k c w ≡ done tt (record w { log = log })) × Holds base log rest
released k base pgtbl params c made_for pud cmdline rest w table written h =
    let live : IsLive k w c pud cmdline = record {
      made_for = made_for;
      there = h.there;
      cpus_there = h.cpus_there;
      table = subst (λ p. Table k w p pud) (sym h.same_pgtbl) table;
      params = subst (λ p. Params k w made_for p cmdline) (sym h.same_params) written;
    } in
    let (log, e, g) = cntr_release-Gives k c pud cmdline w live in
    (log, e, λ r. omega (arith, h.held r, (g r).0, (g r).1))

-- Under the laws of the page allocator, the direct map and the lookup of eventfds (Pkm/Laws): after
-- a creation and any turns of the launcher's threads that neither fault nor spin, whatever their
-- requests, the order, arguments and results of these, and whatever contexts the container comes
-- back with, the release returns, and of all that was taken since before the creation just the
-- descriptor and its file, which the creation has returned, and the eventfds that later requests
-- have overwritten in a queue are still held. Conditions: when the release starts, the first entry
-- of the boot table and the boot parameters, both of which the container can write, are in memory
-- as the creation has left them.
pub cntr_release-Turns :
    (k : Kernel) (w w₁ : World) (r : Created) (c₁ : Cntr) (lost : List Resource) (q : Threads)
    → PageLaws k
    → NeverNull k
    → create_cntr k w ≡ done r w₁
    → r.cntr ≡ some c₁
    → Turns k (record { cntr = c₁; world = w₁; place = λ _. outside }) lost q
    → q.world.mem c₁.boot_pgtbl ≡ w₁.mem c₁.boot_pgtbl
    → q.world.params c₁.boot_params ≡ w₁.params c₁.boot_params
    → (n f : ℕ) × (log : Log) × (r.result ≡ pos n)
      × (cntr_release k q.cntr q.world ≡ done tt (record q.world { log = log }))
      × Holds w.log log (lost ++ file f ∷ fd n ∷ [])
cntr_release-Turns k w w₁ r c₁ lost q laws law e some_c turns table_left params_left = after_all (
    Ensures-result r w₁
      (subst (λ x. Ensures (Crashed w.log) (Settled k w.log) x) e (create_cntr-Settled k w laws)))
  where
    after_all :
        Settled k w.log r w₁
        → (n f : ℕ) × (log : Log) × (r.result ≡ pos n)
          × (cntr_release k q.cntr q.world ≡ done tt (record q.world { log = log }))
          × Holds w.log log (lost ++ file f ∷ fd n ∷ [])
    after_all (nothing_left z h) = absurd (cc (z, some_c))
    after_all (cpus_left p z h) = absurd (cc (z, some_c))
    after_all (held c pud cmdline n f some_c' res live quiet h) =
        let rest = file f ∷ fd n ∷ [] in
        let same_c : c ≡ c₁ = cc (some_c, some_c') in
        let live₁ : IsLive k w₁ c₁ pud cmdline =
          subst (λ x. IsLive k w₁ x pud cmdline) same_c live in
        let owns : Owns w.log c.boot_pgtbl c.boot_params c pud cmdline rest w₁.log = record {
          there = live.there;
          cpus_there = live.cpus_there;
          same_pgtbl = refl;
          same_params = refl;
          held =
              λ x. omega (arith, h x, ap (count x) (no_efds c (with_params c pud cmdline) quiet));
        } in
        let pgtbl = c₁.boot_pgtbl in
        let params = c₁.boot_params in
        let (log, eq, g) =
          released k w.log pgtbl params q.cntr live₁.made_for pud cmdline (lost ++ rest) q.world
            (Table-mem q.world table_left live₁.table) (Params-mem q.world params_left live₁.params)
            (Turns-Owns k w.log pgtbl params c₁ pud cmdline rest w₁ law
              (subst (λ x. Owns w.log x.boot_pgtbl x.boot_params x pud cmdline rest w₁.log) same_c
                owns)
              lost q turns) in
        (n, f, log, res, eq, g)
