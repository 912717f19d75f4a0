-- ===== src/Guest/Registers.antt =====
-- The model-specific registers of the container's processor under the hook that writes them.
use cki_artifact.Base.{
  ℕ, ◌+◌, ◌*◌, ◌^◌, ◌<◌, ◌≡◌, ◌≢◌, refl, sym, arith, ◌⊎◌, inl, inr, true, ◌==◌, Bool-cases, eq→==,
  ne→==, pos, List, [], ◌∷◌, ◌<<<◌,
}
use cki_artifact.Pkm.Abi.{StartArgs}
use cki_artifact.Pkm.Rkcall
use cki_artifact.Pkm.State.{Cntr, update}
use cki_artifact.Pkm.World.{Kernel, World, done}
use cki_artifact.Pkm.Start.{serve, call_of, leave}
use cki_artifact.Guest.Hooks.{
  Effect, rkcall, native_write_msr, Linux, is_base, is_ignored, is_fixed, give_up, pk_rkcall0,
  pkm_write_msr,
}
use cki_artifact.Guest.Calls.{calling}

-- What the registers hold after effects.
abbrev pub msr_after : List Effect → (ℕ → ℕ) → ℕ → ℕ
msr_after [] read = read
msr_after (rkcall a ∷ es) read = msr_after es read
msr_after (native_write_msr msr low high ∷ es) read =
    msr_after es (update read msr (high * 2 ^ 32 + low))

-- One of the three bases of segments, and one of the four registers of other system calls.
abbrev pub IsBase : Linux → ℕ → Type 0
IsBase l msr = (msr ≡ l.msr_gs_base) ⊎ (msr ≡ l.msr_kernel_gs_base) ⊎ (msr ≡ l.msr_fs_base)

abbrev pub IsIgnored : Linux → ℕ → Type 0
IsIgnored l msr =
    (msr ≡ l.msr_cstar)
    ⊎ (msr ≡ l.msr_ia32_sysenter_cs)
    ⊎ (msr ≡ l.msr_ia32_sysenter_esp)
    ⊎ (msr ≡ l.msr_ia32_sysenter_eip)

is_base-IsBase : (l : Linux) (msr : ℕ) → is_base l msr ≡ true → IsBase l msr
is_base-IsBase l msr h = ground arith

is_ignored-IsIgnored : (l : Linux) (msr : ℕ) → is_ignored l msr ≡ true → IsIgnored l msr
is_ignored-IsIgnored l msr h = ground arith

-- How a write of a register ends: every other register is as it was, and so is this one, unless it
-- is one of the three bases; and it holds the value, or is one of the four, or the container ends.
pub record Written (l : Linux) (read : ℕ → ℕ) (msr low high : ℕ) (es : List Effect) : Type 0 where
  pub kept : (r : ℕ) → (r ≢ msr) ⊎ (¬ IsBase l msr) → msr_after es read r ≡ read r
  pub told : (es ≡ give_up msr) ⊎ IsIgnored l msr ⊎ (msr_after es read msr ≡ high * 2 ^ 32 + low)

module _ (l : Linux) (read : ℕ → ℕ) (msr low high : ℕ) (fits : high < 2 ^ 32) where
  shifted : read msr ≡ (high <<< 32) + low → read msr ≡ high * 2 ^ 32 + low
  shifted e = omega (arith, e)

  write-Written : Written l read msr low high (pkm_write_msr l read msr low high)
  unfolding pkm_write_msr
  write-Written = elim (Bool-cases (is_base l msr)) [
    | inl e ↦ rw e (record {
      kept = λ r. elim [
        | inl ne ↦ rw (ne→== msr r (λ q. ne (sym q))) refl
        | inr n ↦ absurd (n (is_base-IsBase l msr e))
      ];
      told = inr (inr (rw (eq→== msr msr refl) refl));
    })
    | inr e ↦ elim (Bool-cases (is_ignored l msr)) [
      | inl e' ↦
          rw (e, e')
            (record { kept = λ r h. refl; told = inr (inl (is_ignored-IsIgnored l msr e')) })
      | inr e' ↦ elim (Bool-cases (is_fixed l msr)) [
        | inr e'' ↦ rw (e, e', e'') (record { kept = λ r h. refl; told = inl refl })
        | inl e'' ↦ elim (Bool-cases (read msr == (high <<< 32) + low)) [
          | inr c ↦ rw (e, e', e'', c) (record { kept = λ r h. refl; told = inl refl })
          | inl c ↦
              rw (e, e', e'', c)
                (record { kept = λ r h. refl; told = inr (inr (shifted (ground arith))) })
        ]
      ]
    ]
  ]

-- A write of a model-specific register through the hook changes no other register, and this one
-- only where it is one of the three bases of segments. Afterwards the register holds the value, or
-- it is one of the four that the hook ignores, or the hook has made two calls of the module, of
-- which the second ends the request of the processor with 0. Condition: the upper half is below
-- 2^32.
pub pkm_write_msr-Written :
    (l : Linux) (read : ℕ → ℕ) (msr low high : ℕ)
    → high < 2 ^ 32
    → Written l read msr low high (pkm_write_msr l read msr low high)
      × ((k : Kernel) (c : Cntr) (i ret : ℕ) (args : StartArgs) (halts : List ℕ) (w : World)
          → serve k
              (calling c i (pk_rkcall0 Rkcall.shutdown))
              i
              args
              ret
              halts
              (call_of Rkcall.shutdown)
              w
            ≡ done (leave (pos 0) (calling c i (pk_rkcall0 Rkcall.shutdown))) w)
unfolding serve call_of
pkm_write_msr-Written l read msr low high fits =
    (write-Written l read msr low high fits, λ k c i ret args halts w. refl)
