-- ===== src/Pkm/Threads/Exclusion.antt =====
-- However the threads take turns, a processor of the container runs one thread at a time, and the
-- container is entered under its own identifier.
use cki_artifact.Base.{
  List, ℕ, ℤ, ◌<◌, ◌≡◌, ◌↔◌, refl, sym, ◌∙◌, fun_ext, true, false, Bool, ◌==◌, if◌then◌else◌, [],
}
use mathlib.Core.Path.{subst}
use cki_artifact.Pkm.Abi.{Request}
use cki_artifact.Pkm.State.{Cntr, update}
use cki_artifact.Pkm.World.{Kernel, World, Resource}
use cki_artifact.Pkm.Start.{handle_rkcall_halt, running, halted, returned, unlock, lock}
use cki_artifact.Pkm.Start.Effects.{Tagged, Same}
use cki_artifact.Pkm.Start.Entry.{lock-update, unlock-update}
use cki_artifact.Pkm.Lifetime.Requests.{Changed, kept, wired_up, cntr_ioctl-Changed}
use cki_artifact.Pkm.Threads.{
  Place, outside, inside, waiting, Threads, Turn, starts, continues, halts, resumes, leaves, asks,
  Turns, begin, turn,
}
use cki_artifact.Pkm.Threads.Rounds.{
  resumed, start-free, locks, IsSafe, Same-IsSafe, begun, asked, round,
}
use cki_artifact.Pkm.Threads.Owners.{IsAt, Owned, nobody, stays-Owned, enters-Owned, leaves-Owned}

-- The same threads hold mutexes that are the same.
relock :
    (l l' : ℕ → Bool) (place : ℕ → Place) → ((j : ℕ) → l' j ≡ l j) → Owned l place → Owned l' place
relock l l' place same owned = subst (λ x. Owned x place) (sym (fun_ext same)) owned

module _ (k : Kernel) (self pcid : ℕ) (small : pcid < 4096) where
  Changed-IsSafe :
      (s : Threads) (req : Request) (r : ℤ) (c : Cntr) (w : World)
      → IsSafe self pcid s
      → Tagged self pcid w.log
      → Changed k req s.cntr s.world r c w
      → IsSafe self pcid (record { cntr = c; world = w; place = s.place })
  Changed-IsSafe s req _ _ _ safe t (kept r c w none same took) =
      Same-IsSafe k self pcid small s c w s.place safe same.self_same same.pcid_same
        (relock (locks s.cntr) (locks c) s.place same.lock_same safe.owned) t
  Changed-IsSafe s req _ _ _ safe t (wired_up kick call w eq fits gk gc took) =
      Same-IsSafe k self pcid small s _ w s.place safe refl refl safe.owned t

  -- A thread that stays with its processor.
  stays-IsSafe :
      (s : Threads) (t i : ℕ) (now p : Place) (c : Cntr) (w : World)
      → IsSafe self pcid s
      → s.place t ≡ now
      → ((j : ℕ) → IsAt j p → IsAt j now)
      → ((j : ℕ) → IsAt j now → IsAt j p)
      → Same s.cntr c
      → Tagged self pcid w.log
      → IsSafe self pcid (record { cntr = c; world = w; place = update s.place t p })
  stays-IsSafe s t i now p c w safe at out back same tag =
      Same-IsSafe k self pcid small s c w (update s.place t p) safe same.self_same same.pcid_same
        (relock (locks s.cntr) (locks c) (update s.place t p) same.lock_same (
          stays-Owned (locks s.cntr) s.place safe.owned t p
            (λ j h. subst (IsAt j) (sym at) (out j h)) λ j h. back j (subst (IsAt j) at h)))
        tag

  Turn-IsSafe :
      (s : Threads) (more : List Resource) (q : Threads)
      → IsSafe self pcid s
      → Turn k s more q
      → IsSafe self pcid q
  unfolding lock unlock
  Turn-IsSafe s _ _ safe (starts t garbage ret c w out e) =
      let args = (k.copy_start_args s.world.log).1 in
      let i = args.cpu in
      let p = inside i args ret in
      let (same, tag) = begun k self pcid small s garbage ret c w safe e in
      let free = start-free k s.cntr c garbage ret s.world w e in
      Same-IsSafe k self pcid small s c w (update s.place t p) safe same.self_same same.pcid_same
        (relock (λ j. if i == j then true else locks s.cntr j) (locks c) (update s.place t p)
          (λ j. same.lock_same j ∙ lock-update s.cntr i k.current_task j)
          (enters-Owned (locks s.cntr) s.place safe.owned t i p refl free out))
        tag
  Turn-IsSafe s _ _ safe (continues t i ret ret' args ex c w at e) =
      let (same, tag) = round k self pcid small s i ret args ex (running c ret') w safe e in
      stays-IsSafe s t i (inside i args ret) (inside i args ret') c w safe at (λ j h. h) (λ j h. h)
        same tag
  Turn-IsSafe s _ _ safe (halts t i ret args ex c w at e) =
      let (same, tag) = round k self pcid small s i ret args ex (halted c) w safe e in
      stays-IsSafe s t i (inside i args ret) (waiting i args) c w safe at (λ j h. h) (λ j h. h) same
        tag
  Turn-IsSafe s _ _ safe (resumes t i late ret args wakeups c w at e) =
      let o = handle_rkcall_halt i (s.cntr.cpu i).virtio_event_cnt wakeups in
      let (same, tag) = resumed k self pcid small s i late o (running c ret) w safe e in
      stays-IsSafe s t i (waiting i args) (inside i args ret) c w safe at (λ j h. h) (λ j h. h) same
        tag
  Turn-IsSafe s _ _ safe (leaves t i ret args ex r c w at e) =
      let (same, tag) = round k self pcid small s i ret args ex (returned r c) w safe e in
      Same-IsSafe k self pcid small s c w (update s.place t outside) safe same.self_same
        same.pcid_same
        (relock (λ j. if i == j then false else locks s.cntr j) (locks c) (update s.place t outside)
          (λ j. same.lock_same j ∙ unlock-update s.cntr i j)
          (leaves-Owned (locks s.cntr) s.place safe.owned t i (subst (IsAt i) (sym at) refl)))
        tag
  Turn-IsSafe s _ _ safe (asks t garbage req r c w out e) =
      Changed-IsSafe s req r c w safe (asked k self pcid small s garbage req r c w safe e)
        (cntr_ioctl-Changed k req s.cntr garbage [] s.world r c w e)

  Turns-IsSafe :
      (s : Threads) (lost : List Resource) (q : Threads)
      → IsSafe self pcid s
      → Turns k s lost q
      → IsSafe self pcid q
  Turns-IsSafe s _ _ safe begin = safe
  Turns-IsSafe s _ _ safe (turn {lost} {more} {q} {r} ts t) =
      Turn-IsSafe q more r (Turns-IsSafe s lost q safe ts) t

-- Each entry has had the container's identifier, no two threads are in the loop of one processor,
-- and a mutex is held just while a thread is in the loop of its processor.
pub record IsExclusive (c : Cntr) (q : Threads) : Type 0 where
  pub tagged : Tagged c.self c.pcid q.world.log
  pub alone : (i t u : ℕ) → IsAt i (q.place t) → IsAt i (q.place u) → t ≡ u
  pub locked : (i : ℕ) → ((q.cntr.cpu i).lock ≡ true) ↔ ((t : ℕ) × IsAt i (q.place t))

-- However the threads of a launcher take turns at a container, by starts, rounds of the loop and
-- any other requests that neither fault nor spin, and whatever contexts the container comes back
-- with: no two threads are in the loop of one processor, the mutex of a processor is held exactly
-- while a thread is in its loop, and the container has only been entered with its own identifier in
-- the low twelve bits of CR3. Conditions: at first all threads are outside and no mutex is held,
-- the identifier is below 4096, and so far the container was only entered under it.
pub Turns-IsExclusive :
    (k : Kernel) (c : Cntr) (w : World) (lost : List Resource) (q : Threads)
    → c.pcid < 4096
    → Tagged c.self c.pcid w.log
    → ((i : ℕ) → (c.cpu i).lock ≡ false)
    → Turns k (record { cntr = c; world = w; place = λ _. outside }) lost q
    → IsExclusive c q
Turns-IsExclusive k c w lost q small tagged free ts =
    let first : Threads = record { cntr = c; world = w; place = λ _. outside } in
    let owned = nobody (locks c) (λ _. outside) free λ t. refl in
    let begins : IsSafe c.self c.pcid first = record {
      self_same = refl;
      pcid_same = refl;
      owned = owned;
      tagged = tagged;
    } in
    let safe = Turns-IsSafe k c.self c.pcid small first lost q begins ts in
    record {
      tagged = safe.tagged;
      alone = λ i t u h g. safe.owned.alone t u i h g;
      locked = λ i. (safe.owned.owner i, λ (t, h). safe.owned.held t i h);
    }
