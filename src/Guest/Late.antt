-- ===== src/Guest/Late.antt =====
-- The late start of the container's kernel, and what the module makes of its first call.
use cki_artifact.Base.{ℕ, ◌≡◌, ◌↔◌, ◌==◌, if◌then◌else◌}
use cki_artifact.Pkm.Rkcall
use cki_artifact.Pkm.State.{Cntr, CntrCpu, pk_rkret_fast}
use cki_artifact.Pkm.World.{World, Run, done}
use cki_artifact.Pkm.Start.{Served, reply}
use cki_artifact.Monitor.State.{Monitor}
use cki_artifact.Monitor.State as M
use cki_artifact.Guest.{Guest}

-- The interrupt table and CR4 of the container's side are those of the host's.
abbrev pub IsMatched : CntrCpu → Type 0
IsMatched cpu =
    (cpu.ctx.pmode.idtr0 ≡ cpu.ctx.rmode.idtr0)
    × (cpu.ctx.pmode.idtr1 ≡ cpu.ctx.rmode.idtr1)
    × (cpu.ctx.pmode.cr4 ≡ cpu.ctx.rmode.cr4)

-- The answer to INIT_LATE: 0 where the two match, and then the way back is the fast one.
abbrev pub Answered : Cntr → (i : ℕ) → Run Served → Type 0
Answered c i r =
    (ret : ℕ) × (c' : Cntr) × (w' : World) × (r ≡ done (reply ret c') w')
    × ((ret ≡ 0) ↔ IsMatched (c.cpu i))
    × ((c'.cpu i).pk_rkret ≡ (if ret == 0 then pk_rkret_fast else (c.cpu i).pk_rkret))
