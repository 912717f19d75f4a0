-- ===== src/Monitor/Init.antt =====
-- The initial walk over the current table, `sva_mmu_init`.
use cki_artifact.Monitor.State.{Monitor}
