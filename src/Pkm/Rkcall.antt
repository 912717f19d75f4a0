-- ===== src/Pkm/Rkcall.antt =====
-- The calls of the container's kernel: `PK_RKCALL_*` of arch/x86/include/asm/pkernel.h in
-- source/cki_kernel/kernel.patch. The names drop the prefix.
use cki_artifact.Base.{ℕ}

abbrev pub debug : ℕ
debug = 0

abbrev pub shutdown : ℕ
shutdown = 1

abbrev pub mem_check : ℕ
mem_check = 2

abbrev pub yield : ℕ
yield = 3

abbrev pub init_late : ℕ
init_late = 4

abbrev pub write_cr3 : ℕ
write_cr3 = 7

abbrev pub nop : ℕ
nop = 8

abbrev pub intr : ℕ
intr = 10

abbrev pub halt : ℕ
halt = 11

abbrev pub cpu_up : ℕ
cpu_up = 12

abbrev pub mmio_read : ℕ
mmio_read = 13

abbrev pub mmio_write : ℕ
mmio_write = 14

abbrev pub print : ℕ
print = 15
