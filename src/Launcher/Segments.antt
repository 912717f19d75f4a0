-- ===== src/Launcher/Segments.antt =====
-- The loop of `load_kernel_image` over the segment file, and what `fscanf` reads of such a file.
use cki_artifact.Base.{
  ℕ, zero, suc, ◌+◌, ◌*◌, ◌-◌, ◌≤◌, ◌≡◌, refl, arith, ◌⊎◌, inl, inr, Bool, true, false, ◌==◌,
  if_cases, Bool-cases, u64, ℤ, pos, negsuc, List, [], ◌∷◌,
}
use cki_artifact.Launcher.System.{
  Segment, fscanf, pread, Log, Os, Run, done, exited, running, int_as_ulong,
}
use cki_artifact.Launcher.Setup.{is_eof, load_segments}

-- What one `0x%lx` meets in a file: a text that it matches, or one that it does not.
pub data Item : Type 0 where
  number : Item
  other : Item

-- The result of `fscanf(file, "0x%lx 0x%lx 0x%lx\n", …)` at these items, as documented: the numbers
-- that it has assigned, or EOF where the file ends before the first.
abbrev pub assigned : List Item → ℤ
assigned [] = negsuc 0
assigned (other ∷ _) = pos 0
assigned (number ∷ []) = pos 1
assigned (number ∷ other ∷ _) = pos 1
assigned (number ∷ number ∷ []) = pos 2
assigned (number ∷ number ∷ other ∷ _) = pos 2
assigned (number ∷ number ∷ number ∷ _) = pos 3

-- What it leaves unread: a text that does not match stays in the file.
abbrev pub unread : List Item → List Item
unread [] = []
unread (other ∷ items) = other ∷ items
unread (number ∷ []) = []
unread (number ∷ other ∷ items) = other ∷ items
unread (number ∷ number ∷ []) = []
unread (number ∷ number ∷ other ∷ items) = other ∷ items
unread (number ∷ number ∷ number ∷ items) = items

-- What is left of a file after the calls of a log, which reads no other.
abbrev pub left_of : List Item → Log → List Item
left_of file [] = file
left_of file (fscanf f ∷ log) = unread (left_of file log)
left_of file (_ ∷ log) = left_of file log

-- The answers of fscanf are those at this file.
abbrev pub Scans : Os → (seg_file : ℤ) → List Item → Type 0
Scans os seg_file file = (log : Log) → os.answer log (fscanf seg_file) ≡ assigned (left_of file log)

abbrev pub all_numbers : List Item → Bool
all_numbers [] = true
all_numbers (number ∷ items) = all_numbers items
all_numbers (other ∷ items) = false

abbrev pub count_items : List Item → ℕ
count_items [] = 0
count_items (_ ∷ items) = 1 + count_items items

-- The process has ended at a read that returned another number of bytes than the segment has.
abbrev pub IsShortRead : Os → (img_fd : ℤ) → Run (Unit {0}) → Type 0
IsShortRead os img_fd r =
    (addr size offset : ℕ) × (log : Log) × (r
      ≡ exited "read segment" (pread img_fd addr size offset ∷ log))
    × ((int_as_ulong (os.answer log (pread img_fd addr size offset)) == size) ≡ false)

-- The loop is left, by its `break` or by the exit of a short read.
abbrev pub IsLeft : Os → (img_fd : ℤ) → Run (Unit {0}) → Type 0
IsLeft os img_fd r = ((log : Log) × (r ≡ done tt log)) ⊎ IsShortRead os img_fd r

-- The loop is still running, or left by the exit of a short read.
abbrev pub GoesOn : Os → (img_fd : ℤ) → Run (Unit {0}) → Type 0
GoesOn os img_fd r = ((log : Log) × (r ≡ running log)) ⊎ IsShortRead os img_fd r

-- One call at a file of numbers: it is the end, or three numbers less are left, or none.
numbers-unread :
    (items : List Item)
    → all_numbers items ≡ true
    → ((items ≡ []) × (is_eof (assigned items) ≡ true))
      ⊎ ((is_eof (assigned items) ≡ false)
          × (all_numbers (unread items) ≡ true)
          × (1 ≤ count_items items)
          × (count_items (unread items) ≡ count_items items - 3))
numbers-unread [] e = inl (refl, refl)
numbers-unread (other ∷ items) e = absurd (cc e)
numbers-unread (number ∷ []) e = inr (refl, refl, omega arith, refl)
numbers-unread (number ∷ other ∷ items) e = absurd (cc e)
numbers-unread (number ∷ number ∷ []) e = inr (refl, refl, omega arith, refl)
numbers-unread (number ∷ number ∷ other ∷ items) e = absurd (cc e)
numbers-unread (number ∷ number ∷ number ∷ items) e = inr (refl, e, omega arith, omega arith)

-- One call at a file with another text.
other-unread :
    (items : List Item)
    → all_numbers items ≡ false
    → (is_eof (assigned items) ≡ false) × (all_numbers (unread items) ≡ false)
other-unread [] e = absurd (cc e)
other-unread (other ∷ items) e = (refl, refl)
other-unread (number ∷ []) e = absurd (cc e)
other-unread (number ∷ other ∷ items) e = (refl, refl)
other-unread (number ∷ number ∷ []) e = absurd (cc e)
other-unread (number ∷ number ∷ other ∷ items) e = (refl, refl)
other-unread (number ∷ number ∷ number ∷ items) e = (refl, e)

module _ (os : Os) (img_fd seg_file : ℤ) (virt_base : ℕ) (file : List Item)
    (scans : Scans os seg_file file) where
  numbers-IsLeft :
      (rounds : ℕ) (seg : Segment) (log : Log)
      → all_numbers (left_of file log) ≡ true
      → count_items (left_of file log) + 3 ≤ 3 * rounds
      → IsLeft os img_fd (load_segments os img_fd seg_file virt_base rounds seg log)
  unfolding load_segments
  numbers-IsLeft zero seg log all enough = absurd (omega (arith, enough))
  numbers-IsLeft (suc rounds) seg log all enough =
      let log' = fscanf seg_file ∷ log in
      let seg' = os.segment log' seg in
      let c = pread img_fd (u64 (virt_base + seg'.paddr)) seg'.size seg'.base in
      elim (numbers-unread (left_of file log) all) [
        | inl (none, eof) ↦ rw (scans log, eof) (inl (log', refl))
        | inr (more, still, one, less) ↦
            let rest : IsLeft os img_fd
                (load_segments os img_fd seg_file virt_base rounds seg' (c ∷ log')) =
              numbers-IsLeft rounds seg' (c ∷ log') still (omega (arith, one, less, enough)) in
            rw (scans log, more)
              (if_cases (IsLeft os img_fd) (int_as_ulong (os.answer log' c) == seg'.size)
                (λ _. rest)
                λ short.
                  inr (u64 (virt_base + seg'.paddr), seg'.size, seg'.base, log', refl, short))
      ]

  other-GoesOn :
      (rounds : ℕ) (seg : Segment) (log : Log)
      → all_numbers (left_of file log) ≡ false
      → GoesOn os img_fd (load_segments os img_fd seg_file virt_base rounds seg log)
  unfolding load_segments
  other-GoesOn zero seg log some_other = inl (log, refl)
  other-GoesOn (suc rounds) seg log some_other =
      let log' = fscanf seg_file ∷ log in
      let seg' = os.segment log' seg in
      let c = pread img_fd (u64 (virt_base + seg'.paddr)) seg'.size seg'.base in
      let (more, still) = other-unread (left_of file log) some_other in
      let rest : GoesOn os img_fd
          (load_segments os img_fd seg_file virt_base rounds seg' (c ∷ log')) =
        other-GoesOn rounds seg' (c ∷ log') still in
      rw (scans log, more)
        (if_cases (GoesOn os img_fd) (int_as_ulong (os.answer log' c) == seg'.size) (λ _. rest)
          λ short. inr (u64 (virt_base + seg'.paddr), seg'.size, seg'.base, log', refl, short))

-- Over a segment file that fscanf reads item by item, as it documents: where all items that are
-- left are numbers, the loop that loads the image is left, by its break or by the exit of a short
-- read; where another text stands among them, it is never left by its break: it is still running,
-- or it was left by the exit of a short read. Condition: the rounds are one more than the lines
-- that are left, of three items each, a shorter last one included, or there are more rounds than
-- that.
pub load_segments-IsLeft :
    (os : Os) (img_fd seg_file : ℤ) (virt_base rounds : ℕ) (file : List Item) (seg : Segment)
    (log : Log)
    → Scans os seg_file file
    → count_items (left_of file log) + 3 ≤ 3 * rounds
    → ((all_numbers (left_of file log) ≡ true)
        × IsLeft os img_fd (load_segments os img_fd seg_file virt_base rounds seg log))
      ⊎ ((all_numbers (left_of file log) ≡ false)
          × GoesOn os img_fd (load_segments os img_fd seg_file virt_base rounds seg log))
load_segments-IsLeft os img_fd seg_file virt_base rounds file seg log scans enough =
    elim (Bool-cases (all_numbers (left_of file log))) [
      | inl all ↦
          inl
            (all, numbers-IsLeft os img_fd seg_file virt_base file scans rounds seg log all enough)
      | inr some_other ↦ inr (
        some_other,
        other-GoesOn os img_fd seg_file virt_base file scans rounds seg log some_other,
      )
    ]
