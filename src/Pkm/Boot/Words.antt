-- ===== src/Pkm/Boot/Words.antt =====
-- The loops that fill a page of words.
use cki_artifact.Base.{ℕ, zero, suc, ◌+◌, ◌*◌, ◌≤◌, ◌<◌, ◌^◌, ◌%◌, ◌≡◌, refl, ◌⊎◌, ◌∙◌, arith}
use cki_artifact.Base.Bits.{bit_or_fields, bit_or_comm}
use cki_artifact.Pkm.Boot.{copy_words, fill_pud, pud_entry}

-- An address outside the `n` words at `base`.
abbrev pub IsOutside : (base n a : ℕ) → Type 0
IsOutside base n a = (a < base) ⊎ (base + 8 * n ≤ a)

pub fill_pud-outside :
    (n pud : ℕ) (mem : ℕ → ℕ) (a : ℕ) → IsOutside pud n a → fill_pud n pud mem a ≡ mem a
unfolding fill_pud
fill_pud-outside zero pud mem a h = refl
fill_pud-outside (suc n) pud mem a h = ground (arith, fill_pud-outside n pud mem a)

pub fill_pud-entry :
    (n pud : ℕ) (mem : ℕ → ℕ) (i : ℕ) → i < n → fill_pud n pud mem (pud + 8 * i) ≡ pud_entry i
unfolding fill_pud
fill_pud-entry zero pud mem i h = absurd (omega arith)
fill_pud-entry (suc n) pud mem i h = ground (arith, fill_pud-entry n pud mem i)

pub copy_words-outside :
    (n dst src : ℕ) (mem : ℕ → ℕ) (a : ℕ) → IsOutside dst n a → copy_words n dst src mem a ≡ mem a
unfolding copy_words
copy_words-outside zero dst src mem a h = refl
copy_words-outside (suc n) dst src mem a h = ground (arith, copy_words-outside n dst src mem a)

pub copy_words_lem :
    (n dst src : ℕ) (mem : ℕ → ℕ) (j : ℕ)
    → (src + 8 * n ≤ dst) ⊎ (dst + 8 * n ≤ src)
    → j < n
    → copy_words n dst src mem (dst + 8 * j) ≡ mem (src + 8 * j)
unfolding copy_words
copy_words_lem zero dst src mem j d h = absurd (omega arith)
copy_words_lem (suc n) dst src mem j d h =
    ground (arith, copy_words_lem n dst src mem j, copy_words-outside n dst src mem (src + 8 * n))

-- The flags of a page-directory entry stand below the frame's number.
pub pud_entry_lem : (i : ℕ) → i < 512 → pud_entry i ≡ i * 2 ^ 30 + 0x183
unfolding pud_entry
pud_entry_lem i h =
    let fits : i * 2 ^ 30 % 2 ^ 64 ≡ i * 2 ^ 30 = omega arith in
    rw fits (
      bit_or_comm 64 0x183 (i * 2 ^ 30) (omega arith) (omega arith)
      ∙ bit_or_fields 30 i 0x183 (omega arith))
