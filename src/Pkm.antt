-- ===== src/Pkm.antt =====
-- The container kernel module, source/cki_kmod: its ABI (pkm.h and the shared header in
-- source/cki_kernel/kernel.patch), its state, and its operations in pkm_main.c.
pub mod Abi
pub mod Rkcall
pub mod State
pub mod World
pub mod Outcome
pub mod Laws
pub mod Balance
pub mod Mmio
pub mod Memory
pub mod Boot
pub mod Create
pub mod Start
pub mod Vring
pub mod Ioctl
pub mod Lifetime
pub mod Threads
