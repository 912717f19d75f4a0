-- ===== src/Scenarios/Images.antt =====
-- The theorem about the segment file, at a file of two lines and at one whose second line lacks a
-- number.
use cki_artifact.Base.{◌^◌, ◌≡◌, ◌⊎◌, true, false, arith, refl, ℤ, pos, List, [], ◌∷◌}
use cki_artifact.Launcher.System.{Segment, Call, fscanf, pread, Log, Os, Run}
use cki_artifact.Launcher.Setup.{load_segments}
use cki_artifact.Launcher.Segments.{
  Item, number, other, all_numbers, assigned, left_of, Scans, IsLeft, GoesOn, load_segments-IsLeft,
}
use cki_artifact.Scenarios.{os}

abbrev two_lines : List Item
two_lines = number ∷ number ∷ number ∷ number ∷ number ∷ number ∷ []

abbrev bad_line : List Item
bad_line = number ∷ number ∷ number ∷ number ∷ other ∷ number ∷ []

abbrev answers : List Item → Log → Call → ℤ
answers file log (fscanf f) = assigned (left_of file log)
answers file log (pread fd addr size offset) = pos size
answers file log _ = pos 3

abbrev segment : Segment
segment = record { base = 0; size = 4096; paddr = 8192 }

abbrev scanning : List Item → Os
scanning file = record os { answer = answers file; segment = λ _ _. segment }

scanning-Scans : (file : List Item) → Scans (scanning file) (pos 3) file
scanning-Scans file log = refl

abbrev loaded : List Item → Run (Unit {0})
loaded file = load_segments (scanning file) (pos 3) (pos 3) (2 ^ 40) 3 segment []

load_segments-IsLeft_example :
    ((all_numbers two_lines ≡ true) × IsLeft (scanning two_lines) (pos 3) (loaded two_lines))
    ⊎ ((all_numbers two_lines ≡ false) × GoesOn (scanning two_lines) (pos 3) (loaded two_lines))
load_segments-IsLeft_example =
    load_segments-IsLeft (scanning two_lines) (pos 3) (pos 3) (2 ^ 40) 3 two_lines segment []
      (scanning-Scans two_lines) (omega arith)

stuck_at_text :
    ((all_numbers bad_line ≡ true) × IsLeft (scanning bad_line) (pos 3) (loaded bad_line))
    ⊎ ((all_numbers bad_line ≡ false) × GoesOn (scanning bad_line) (pos 3) (loaded bad_line))
stuck_at_text =
    load_segments-IsLeft (scanning bad_line) (pos 3) (pos 3) (2 ^ 40) 3 bad_line segment []
      (scanning-Scans bad_line) (omega arith)
