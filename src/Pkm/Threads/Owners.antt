-- ===== src/Pkm/Threads/Owners.antt =====
-- Which thread has the mutex of a processor, and what a move of one thread does to that.
use cki_artifact.Base.{
  ℕ, ◌≡◌, ◌≢◌, refl, sym, ◌∙◌, arith, ◌⊎◌, inl, inr, Bool, true, false, ◌==◌, if◌then◌else◌,
  Bool-cases, eq→==,
}
use mathlib.Core.Path.{subst}
use cki_artifact.Pkm.State.{update}
use cki_artifact.Pkm.Threads.{Place, outside, inside, waiting}

-- The thread is in the loop of the processor.
abbrev pub IsAt : (i : ℕ) → Place → Type 0
IsAt i outside = ⊥
IsAt i (inside j args ret) = j ≡ i
IsAt i (waiting j args) = j ≡ i

IsAt-one : (i j : ℕ) (p : Place) → IsAt i p → IsAt j p → i ≡ j
IsAt-one i j outside h g = absurd h
IsAt-one i j (inside n args ret) h g = sym h ∙ g
IsAt-one i j (waiting n args) h g = sym h ∙ g

-- A mutex is held just where one thread is in the loop of its processor.
pub record Owned (lock : ℕ → Bool) (place : ℕ → Place) : Type 0 where
  pub held : (t i : ℕ) → IsAt i (place t) → lock i ≡ true
  pub alone : (t u i : ℕ) → IsAt i (place t) → IsAt i (place u) → t ≡ u
  pub owner : (i : ℕ) → lock i ≡ true → (t : ℕ) × IsAt i (place t)

pub nobody :
    (lock : ℕ → Bool) (place : ℕ → Place)
    → ((i : ℕ) → lock i ≡ false)
    → ((t : ℕ) → place t ≡ outside)
    → Owned lock place
nobody lock place free out = record {
  held = λ t i h. absurd (subst (IsAt i) (out t) h);
  alone = λ t u i h g. absurd (subst (IsAt i) (out t) h);
  owner = λ i h. absurd (cc (h, free i));
}

module _ (lock : ℕ → Bool) (place : ℕ → Place) (owned : Owned lock place) (t : ℕ) where
  -- A thread that stays with its processor.
  module _ (p : Place) (out : (i : ℕ) → IsAt i p → IsAt i (place t))
      (back : (i : ℕ) → IsAt i (place t) → IsAt i p) where
    before : (u i : ℕ) → IsAt i (update place t p u) → IsAt i (place u)
    before u i h = elim (Bool-cases (t == u)) [
      | inl e ↦ subst (λ x. IsAt i (place x)) (ground arith) (out i (rw e at h))
      | inr e ↦ rw e at h
    ]

    after : (u i : ℕ) → IsAt i (place u) → IsAt i (update place t p u)
    after u i h = elim (Bool-cases (t == u)) [
      | inl e ↦
          let same : u ≡ t = ground arith in rw e (back i (subst (λ x. IsAt i (place x)) same h))
      | inr e ↦ rw e h
    ]

    pub stays-Owned : Owned lock (update place t p)
    stays-Owned = record {
      held = λ u i h. owned.held u i (before u i h);
      alone = λ u v i h g. owned.alone u v i (before u i h) (before v i g);
      owner = λ i h. let (u, at) = owned.owner i h in (u, after u i at);
    }

  -- A thread from outside at a processor whose mutex was free.
  module _ (i : ℕ) (p : Place) (now : IsAt i p) (free : lock i ≡ false)
      (out : place t ≡ outside) where
    entered : (u j : ℕ) → IsAt j (update place t p u) → ((i ≡ j) × (t ≡ u)) ⊎ IsAt j (place u)
    entered u j h = elim (Bool-cases (t == u)) [
      | inl e ↦ inl (IsAt-one i j p now (rw e at h), ground arith)
      | inr e ↦ inr (rw e at h)
    ]

    others : (u j : ℕ) → IsAt j (place u) → IsAt j (update place t p u)
    others u j h = elim (Bool-cases (t == u)) [
      | inl e ↦
          let same : u ≡ t = ground arith in
          absurd (subst (IsAt j) out (subst (λ x. IsAt j (place x)) same h))
      | inr e ↦ rw e h
    ]

    locked :
        (u j : ℕ)
        → ((i ≡ j) × (t ≡ u)) ⊎ IsAt j (place u)
        → (if i == j then true else lock j) ≡ true
    locked u j (inl (e, q)) = rw (eq→== i j e) refl
    locked u j (inr h) = elim (Bool-cases (i == j)) [
      | inl e ↦ rw e refl
      | inr e ↦ rw e (owned.held u j h)
    ]

    one :
        (u v j : ℕ)
        → ((i ≡ j) × (t ≡ u)) ⊎ IsAt j (place u)
        → ((i ≡ j) × (t ≡ v)) ⊎ IsAt j (place v)
        → u ≡ v
    one u v j (inl (e, q)) (inl (e', q')) = sym q ∙ q'
    one u v j (inl (e, q)) (inr h) =
        absurd (cc (owned.held v i (subst (λ x. IsAt x (place v)) (sym e) h), free))
    one u v j (inr h) (inl (e, q)) =
        absurd (cc (owned.held u i (subst (λ x. IsAt x (place u)) (sym e) h), free))
    one u v j (inr h) (inr g) = owned.alone u v j h g

    pub enters-Owned : Owned (λ j. if i == j then true else lock j) (update place t p)
    enters-Owned = record {
      held = λ u j h. locked u j (entered u j h);
      alone = λ u v j h g. one u v j (entered u j h) (entered v j g);
      owner = λ j h. elim (Bool-cases (i == j)) [
        | inl e ↦ (t, rw (eq→== t t refl) (subst (λ x. IsAt x p) (ground arith) now))
        | inr e ↦ let (u, at) = owned.owner j (rw e at h) in (u, others u j at)
      ];
    }

  -- A thread that leaves its processor.
  module _ (i : ℕ) (here : IsAt i (place t)) where
    stayed : (u j : ℕ) → IsAt j (update place t outside u) → (t ≢ u) × IsAt j (place u)
    stayed u j h = elim (Bool-cases (t == u)) [
      | inl e ↦ absurd (rw e at h)
      | inr e ↦ ((λ q. absurd (cc (e, eq→== t u q))), rw e at h)
    ]

    unlocked : (u j : ℕ) → (t ≢ u) × IsAt j (place u) → (if i == j then false else lock j) ≡ true
    unlocked u j (ne, h) = elim (Bool-cases (i == j)) [
      | inl e ↦
          let same : j ≡ i = ground arith in
          absurd (ne (owned.alone t u i here (subst (λ x. IsAt x (place u)) same h)))
      | inr e ↦ rw e (owned.held u j h)
    ]

    left : (u j : ℕ) → i ≢ j → IsAt j (place u) → IsAt j (update place t outside u)
    left u j ne h = elim (Bool-cases (t == u)) [
      | inl e ↦
          let same : u ≡ t = ground arith in
          absurd (ne (IsAt-one i j (place t) here (subst (λ x. IsAt j (place x)) same h)))
      | inr e ↦ rw e h
    ]

    pub leaves-Owned : Owned (λ j. if i == j then false else lock j) (update place t outside)
    leaves-Owned = record {
      held = λ u j h. unlocked u j (stayed u j h);
      alone = λ u v j h g. owned.alone u v j (stayed u j h).1 (stayed v j g).1;
      owner = λ j h. elim (Bool-cases (i == j)) [
        | inl e ↦ absurd (cc (rw e at h))
        | inr e ↦
            let (u, at) = owned.owner j (rw e at h) in
            (u, left u j (λ q. absurd (cc (e, eq→== i j q))) at)
      ];
    }
