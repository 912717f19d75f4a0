-- ===== src/Launcher.antt =====
-- The launcher, source/launcher/cki_launcher/main.c: a process that prepares a container's memory,
-- asks the kernel module to create it, wires its network queues to vhost-net, and serves the exits
-- of its processors.
pub mod System
pub mod Address
pub mod Exits
pub mod Wiring
pub mod Tap
pub mod Setup
pub mod Segments
