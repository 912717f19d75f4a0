-- ===== src/Pkm/Lifetime.antt =====
-- The life of a container, from `pkm_dev_ioctl_create_cntr` over the turns of the launcher's threads
-- (Pkm/Threads) to `pkm_cntr_release`, both of pkm_main.c.
pub mod Requests
pub mod Moves
pub mod Resources
pub mod End
pub mod Signals
use cki_artifact.Base.{ℕ, ℤ, pos, negsuc, List, [], ◌++◌, ◌≡◌}
use cki_artifact.Pkm.Abi.{Request, set_vring_efds}
use cki_artifact.Pkm.State.{Cntr}
use cki_artifact.Pkm.World.{Kernel, World, Resource, done}
use cki_artifact.Pkm.Create.Release.{efds}

-- The eventfds that a request with this result has overwritten: those that the named queue had.
abbrev pub lost_by : Kernel → Request → Cntr → World → ℤ → List Resource
lost_by k set_vring_efds c w (pos _) = efds (c.virtio_net.queues (k.copy_vring_efds w.log).1.idx) []
lost_by k _ c w _ = []
