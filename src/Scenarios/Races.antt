-- ===== src/Scenarios/Races.antt =====
-- Two processors at the monitor: one checks a change, the other declares a page and checks a change
-- of its own, and both store.
use cki_artifact.Base.{ℕ, ◌+◌, ◌*◌, ◌≡◌, refl, arith, Option, none, some, List, [], ◌∷◌}
use cki_artifact.Monitor.State.{l2, Monitor, done, update, invlpg, page_entry_store}
use cki_artifact.Monitor.Pages.{pt_update_is_valid, sva_declare_page}
use cki_artifact.Monitor.Order.{EntriesBelow}
use cki_artifact.Monitor.Reach.{IsSound}
use cki_artifact.Monitor.Processors.{Change, start, turn, checks, stores, declares}
use cki_artifact.Monitor.Processors.Races.{Turns-IsSound}
use cki_artifact.Scenarios.Pages.{
  machine, table_word, table_type, tables, machine-DirectMap, tables-IsSound,
}

-- A page that is no table goes into the last table, and the table in frame 20 into the middle one.
abbrev first : Change
first = record { page_entry = 0xffff8880000130a8; val = 0x50003 }

abbrev second : Change
second = record { page_entry = 0xffff888000012008; val = 0x14003 }

abbrev pending1 : ℕ → Option Change
pending1 = update (λ _. none) 0 (some first)

abbrev pending2 : ℕ → Option Change
pending2 = update pending1 1 (some second)

abbrev pending3 : ℕ → Option Change
pending3 = update pending2 0 none

abbrev s1 : Monitor
s1 = record tables {
  types = update table_type 21 l2;
  log = invlpg 0xffff888000015000 ∷ [];
  mem = update table_word (0xffff888000013000 + 8 * 21) 0;
}

abbrev s2 : Monitor
s2 = record s1 { mem = update s1.mem 0xffff8880000130a8 0x50003 }

abbrev s3 : Monitor
s3 = record s2 { mem = update s2.mem 0xffff888000012008 0x14003 }

-- CR3 of each processor after the turns.
abbrev cr3_after : List ℕ → ℕ → ℕ
cr3_after [] = λ _. 0x10000
cr3_after (cpu ∷ turns) = update (cr3_after turns) cpu 0x10000

first_checked : pt_update_is_valid machine 0xffff8880000130a8 0x50003 tables ≡ done tt tables
unfolding pt_update_is_valid
first_checked = refl

page_declared : sva_declare_page machine 0x15000 l2 tables ≡ done tt s1
unfolding sva_declare_page
page_declared = refl

second_checked : pt_update_is_valid machine 0xffff888000012008 0x14003 s1 ≡ done tt s1
unfolding pt_update_is_valid
second_checked = refl

first_stored : page_entry_store 0xffff8880000130a8 0x50003 s1 ≡ done tt s2
unfolding page_entry_store
first_stored = refl

second_stored : page_entry_store 0xffff888000012008 0x14003 s2 ≡ done tt s3
unfolding page_entry_store
second_stored = refl

no_entries : EntriesBelow machine tables 21 l2
no_entries i hi two present = ground arith

Turns-IsSound_example : IsSound machine s3
Turns-IsSound_example =
    Turns-IsSound machine tables (λ _. 0x10000)
      (record {
        monitor = s3;
        cr3 = cr3_after (1 ∷ 0 ∷ 1 ∷ 1 ∷ 0 ∷ []);
        pending = update pending3 1 none;
      })
      machine-DirectMap (λ _. tables-IsSound)
      (turn
        (turn
          (turn
            (turn
              (turn start
                (checks 0 first tables tables (cr3_after []) (λ _. none) refl first_checked))
              (declares 1 0x15000 l2 tables s1 (cr3_after (0 ∷ [])) pending1 no_entries
                page_declared))
            (checks 1 second s1 s1 (cr3_after (1 ∷ 0 ∷ [])) pending1 refl second_checked))
          (stores 0 first s1 s2 (cr3_after (1 ∷ 1 ∷ 0 ∷ [])) pending2 refl first_stored))
        (stores 1 second s2 s3 (cr3_after (0 ∷ 1 ∷ 1 ∷ 0 ∷ [])) pending3 refl second_stored))
      1
