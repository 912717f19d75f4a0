-- ===== src/Pkm/Balance.antt =====
-- What is held of the resources that the kernel hands out, read off the log.
use cki_artifact.Base.{ℕ, ◌+◌, ◌≡◌, List, [], ◌∷◌}
use native.Mathlib.Decide.{ℕ_discrete}
use cki_artifact.Pkm.World.{Resource, acquire, release, World, Log}

Resource-discrete : Discrete Resource
Resource-discrete = hlevel ℕ_discrete

-- 1 where the two are one.
pub same : Resource → Resource → ℕ
same r s = elim (Resource-discrete r s) [ yes _ ↦ 1 | no _ ↦ 0 ]

-- How often a resource was taken and given back.
abbrev pub taken : Resource → Log → ℕ
taken r [] = 0
taken r (acquire s ∷ log) = same r s + taken r log
taken r (_ ∷ log) = taken r log

abbrev pub given : Resource → Log → ℕ
given r [] = 0
given r (release s ∷ log) = same r s + given r log
given r (_ ∷ log) = given r log

abbrev pub count : Resource → List Resource → ℕ
count r [] = 0
count r (s ∷ rs) = same r s + count r rs

-- The log has come to hold the resources of the list, each as often as it stands there, on top of
-- what was held at the log `base`.
abbrev pub Holds : (base log : Log) → List Resource → Type 0
Holds base log rs =
    (r : Resource) → taken r log + given r base ≡ given r log + taken r base + count r rs

-- The same since the world `base`, with the memory as it was.
abbrev pub Takes : (base w : World) → List Resource → Type 0
Takes base w rs = (w.mem ≡ base.mem) × (w.params ≡ base.params) × Holds base.log w.log rs
