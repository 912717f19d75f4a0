-- ===== src/Pkm/Outcome.antt =====
-- Postconditions of a function of the module, for each way in which it can end.
use cki_artifact.Base.{◌≡◌, refl, Bool, true, false, if◌then◌else◌}
use cki_artifact.Pkm.World.{World, Run, done, oops, spin, Cmd, and_then}

-- A result satisfies `Q`, and the world of a fault or a spinning processor satisfies `E`.
pub data Ensures {A : Type 0} (E : World → Type 0) (Q : A → World → Type 0) : Run A → Type 0 where
  on_done : {a : A} {w : World} → Q a w → Ensures E Q (done a w)
  on_oops : {w : World} → E w → Ensures E Q (oops w)
  on_spin : {w : World} → E w → Ensures E Q (spin w)

module _ {A : Type 0} {E : World → Type 0} {Q : A → World → Type 0} where
  pub Ensures-if :
      (b : Bool) (m n : Cmd A) (w : World)
      → Ensures E Q (m w)
      → Ensures E Q (n w)
      → Ensures E Q ((if b then m else n) w)
  Ensures-if true m n w p q = p
  Ensures-if false m n w p q = q

  -- The same, with the test's answer.
  pub Ensures-cases :
      (b : Bool) (m n : Cmd A) (w : World)
      → (b ≡ true → Ensures E Q (m w))
      → (b ≡ false → Ensures E Q (n w))
      → Ensures E Q ((if b then m else n) w)
  Ensures-cases true m n w p q = p refl
  Ensures-cases false m n w p q = q refl

  pub Ensures-and_then :
      {B : Type 0} {R : B → World → Type 0} (r : Run A) (f : A → Cmd B)
      → Ensures E Q r
      → ((a : A) (w : World) → Q a w → Ensures E R (f a w))
      → Ensures E R (and_then r f)
  Ensures-and_then (done a w) f (on_done h) next = next a w h
  Ensures-and_then (oops w) f (on_oops h) next = on_oops h
  Ensures-and_then (spin w) f (on_spin h) next = on_spin h

pub Ensures-weaken :
    {A : Type 0} {E F : World → Type 0} {Q R : A → World → Type 0} {r : Run A}
    → ((w : World) → E w → F w)
    → ((a : A) (w : World) → Q a w → R a w)
    → Ensures E Q r
    → Ensures F R r
Ensures-weaken f g (on_done {a} {w} h) = on_done (g a w h)
Ensures-weaken f g (on_oops {w} h) = on_oops (f w h)
Ensures-weaken f g (on_spin {w} h) = on_spin (f w h)

-- What a command that is known to end promises.
pub Ensures-result :
    {A : Type 0} {E : World → Type 0} {Q : A → World → Type 0} (a : A) (w : World)
    → Ensures E Q (done a w)
    → Q a w
Ensures-result a w (on_done h) = h
