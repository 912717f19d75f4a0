-- ===== src/Monitor.antt =====
-- The monitor of the container's page tables, arch/x86/pkernel/pkernel-monitor.c in
-- source/cki_kernel/kernel.patch: the container's kernel changes page tables through it alone.
pub mod State
pub mod Walk
pub mod Pages
pub mod Frames
pub mod Hardware
pub mod Levels
pub mod Updates
pub mod Layers
pub mod Declared
pub mod Order
pub mod Load
pub mod Reach
pub mod Tables
pub mod Growth
pub mod Calls
pub mod Loop
pub mod Init
pub mod Processors
