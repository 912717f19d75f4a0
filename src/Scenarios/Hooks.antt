-- ===== src/Scenarios/Hooks.antt =====
-- The theorems about the hooks of the container's kernel at small inputs.
use cki_artifact.Base.{ℕ, ◌*◌, ◌^◌, ◌<◌, ◌≤◌, ◌≡◌, ◌≢◌, refl, arith, true, List, pos}
use cki_artifact.Pkm.Abi.{StartArgs}
use cki_artifact.Pkm.Rkcall
use cki_artifact.Pkm.State.{Cntr}
use cki_artifact.Pkm.World.{Kernel, World, done}
use cki_artifact.Pkm.Start.{serve, call_of, leave}
use cki_artifact.Monitor.State as M
use cki_artifact.Monitor.Frames.{target}
use cki_artifact.Monitor.Updates.{stored, Updated}
use cki_artifact.Guest.{Guest}
use cki_artifact.Guest.Calls.{calling}
use cki_artifact.Guest.Hooks.{Linux, pk_rkcall0, pkm_write_msr, pkm_set_pte}
use cki_artifact.Guest.Registers.{Written, pkm_write_msr-Written}
use cki_artifact.Guest.Mapping.{PagingLaws, pkm_set_pte-Updated}
use cki_artifact.Scenarios.Drivers.{guest}
use cki_artifact.Scenarios.Pages.{machine, tables}

abbrev linux : Linux
linux = record {
  msr_fs_base = 0xc0000100;
  msr_gs_base = 0xc0000101;
  msr_kernel_gs_base = 0xc0000102;
  msr_cstar = 0xc0000083;
  msr_ia32_sysenter_cs = 0x174;
  msr_ia32_sysenter_esp = 0x175;
  msr_ia32_sysenter_eip = 0x176;
  msr_ia32_xss = 0xda0;
  msr_star = 0xc0000081;
  msr_lstar = 0xc0000082;
  msr_syscall_mask = 0xc0000084;
  pte_pfn = λ pte. target pte;
  isa_end_address = 0x100000;
}

abbrev low_entry : ℕ
low_entry = 0x50003

linux-PagingLaws : PagingLaws linux low_entry
linux-PagingLaws = record { frame_of = refl; isa_end = refl }

-- A page of the first four gigabytes.
pkm_set_pte-Updated_example :
    (low_entry ≢ 0
      → target low_entry * 4096 < 2 ^ 32
      → pkm_set_pte machine linux 0xffff8880000130a8 low_entry tables
        ≡ M.done tt (stored tables 0xffff8880000130a8 0))
    × (2 ^ 32 ≤ target low_entry * 4096
        → Updated machine tables 0xffff8880000130a8 low_entry
            (pkm_set_pte machine linux 0xffff8880000130a8 low_entry tables))
pkm_set_pte-Updated_example =
    pkm_set_pte-Updated machine linux tables 0xffff8880000130a8 low_entry linux-PagingLaws refl

-- A write to the register of the system call's entry.
pkm_write_msr-Written_example :
    Written linux (λ _. 7) 0xc0000082 8 0 (pkm_write_msr linux (λ _. 7) 0xc0000082 8 0)
    × ((k : Kernel) (c : Cntr) (i ret : ℕ) (args : StartArgs) (halts : List ℕ) (w : World)
        → serve k
            (calling c i (pk_rkcall0 Rkcall.shutdown))
            i
            args
            ret
            halts
            (call_of Rkcall.shutdown)
            w
          ≡ done (leave (pos 0) (calling c i (pk_rkcall0 Rkcall.shutdown))) w)
pkm_write_msr-Written_example = pkm_write_msr-Written linux (λ _. 7) 0xc0000082 8 0 (omega arith)

abbrev late_guest : Guest
late_guest = record guest { pk_cntr_flag = true }
