-- ===== src/Monitor/Hardware.antt =====
-- The walk of an x86-64 processor over a four-level page table, by division, and the monitor's own
-- walk against it.
use cki_artifact.Base.{
  ℕ, zero, suc, ◌+◌, ◌-◌, ◌*◌, ◌/◌, ◌%◌, ◌^◌, ◌<◌, ◌≡◌, ap, ◌∙◌, arith, Bool, false, not, ◌&&◌,
  bit_and, bit_or, ◌==◌, leb, if◌then◌else◌,
}
use cki_artifact.Base.Masks.{bit_and_mask, bit_and_shifted}
use cki_artifact.Monitor.State.{Machine, Monitor, has, pg_v, pg_ps}
use cki_artifact.Monitor.Walk.{get_pge_vaddr}
use cki_artifact.Monitor.Frames.{
  target, bit_and-pg_frame, offset_lem, join_lem, IsPresent-cases, IsLarge-cases,
}

-- The index into a table with `d` tables below it.
abbrev pub index : (d va : ℕ) → ℕ
index zero va = va / 2 ^ 12 % 512
index (suc zero) va = va / 2 ^ 21 % 512
index (suc (suc zero)) va = va / 2 ^ 30 % 512
index (suc (suc (suc d))) va = va / 2 ^ 39 % 512

-- The tests of three tables, nested and in a row.
shape :
    (b4 b3 l3 b2 l2 : Bool) (x y z : ℕ)
    → (if not b4
        then if not b3 then if l3 then x else (if not b2 then if l2 then y else z else 0) else 0
        else 0)
      ≡ (if b4
          then 0
          else if b3
          then 0
          else if l3
          then x
          else if b2
          then 0
          else if l2
          then y
          else z)
shape b4 b3 l3 b2 l2 x y z = ground arith

module _ (m : Machine) (s : Monitor) where
  -- The address of an entry of the table at a frame.
  abbrev pub entry_vaddr : (frame i : ℕ) → ℕ
  entry_vaddr frame i = m.phys_to_virt (frame * 4096 + 8 * i)

  -- From the table at `frame`, with `d` tables below it: the address of the entry at which the
  -- processor's walk for `va` ends, or 0 where an entry above the last table is not present. Only
  -- the two middle tables can map a large page.
  unfoldable pub walk : (d frame va : ℕ) → ℕ
  walk zero frame va = entry_vaddr frame (index zero va)
  walk (suc d) frame va =
      let a = entry_vaddr frame (index (suc d) va) in
      let e = s.mem a in
      let below = walk d (target e) va in
      if e % 2 == 0 then 0 else if leb d 1 && (e / 128 % 2 == 1) then a else below

  entry_lem : (f va w : ℕ) → bit_or (f * 4096) (bit_and w 0xff8) ≡ f * 4096 + 8 * (w / 8 % 512)
  entry_lem f va w =
      ap (bit_or (f * 4096)) (offset_lem w)
      ∙ (join_lem f (w / 8 % 512 * 8) (omega arith) ∙ omega arith)

  address_lem :
      (e va w i : ℕ)
      → w / 8 % 512 ≡ i
      → m.phys_to_virt (bit_or (bit_and e 0x000ffffffffff000) (bit_and w 0xff8))
        ≡ entry_vaddr (target e) i
  address_lem e va w i h = ap m.phys_to_virt (
      ap (λ t. bit_or t (bit_and w 0xff8)) (bit_and-pg_frame e)
      ∙ (entry_lem (target e) va w ∙ ap (λ t. target e * 4096 + 8 * t) h))

  -- The monitor's tests of an entry, by division.
  has-present : (e : ℕ) → has e pg_v ≡ not (e % 2 == 0)
  has-present e = ground (arith, IsPresent-cases e)

  has-large : (e : ℕ) → has e pg_ps ≡ (e / 128 % 2 == 1)
  has-large e = ground (arith, IsLarge-cases e)

  root_there :
      0 < target s.cr3
      → (bit_and (bit_and s.cr3 0x000ffffffffff000) 0xfffffffffffff000 == 0) ≡ false
  root_there h = ground (
    arith,
    bit_and-pg_frame s.cr3,
    bit_and_shifted 12 (target s.cr3 * 4096) (2 ^ 52 - 1),
    bit_and_mask 52 (target s.cr3 * 4096 / 2 ^ 12),
  )

  -- Where CR3 names a frame other than 0, the monitor's walk, written with masks and shifts, finds
  -- for each virtual address the entry at which the walk of an x86-64 processor from CR3 ends, and
  -- NULL where that meets an entry that is not present above the last table.
  pub get_pge_vaddr-walk :
      (va : ℕ) → 0 < target s.cr3 → get_pge_vaddr m s va ≡ walk 3 (target s.cr3) va
  unfolding get_pge_vaddr walk
  get_pge_vaddr-walk va h =
      let e4 = s.mem (entry_vaddr (target s.cr3) (index 3 va)) in
      let e3 = s.mem (entry_vaddr (target e4) (index 2 va)) in
      let e2 = s.mem (entry_vaddr (target e3) (index 1 va)) in
      rw
        (
          root_there h,
          address_lem s.cr3 va (va / 2 ^ 36) (index 3 va) (omega arith),
          address_lem e4 va (va / 2 ^ 27) (index 2 va) (omega arith),
          address_lem e3 va (va / 2 ^ 18) (index 1 va) (omega arith),
          address_lem e2 va (va / 2 ^ 9) (index 0 va) (omega arith),
          has-present e4,
          has-present e3,
          has-present e2,
          has-large e3,
          has-large e2,
        )
        (shape (e4 % 2 == 0) (e3 % 2 == 0) (e3 / 128 % 2 == 1) (e2 % 2 == 0) (e2 / 128 % 2 == 1) _ _
          _)
