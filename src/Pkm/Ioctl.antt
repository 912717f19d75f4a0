-- ===== src/Pkm/Ioctl.antt =====
-- The two device files of pkm_main.c: their request switches, and the module's start and end.
use cki_artifact.Base.{ℕ, ℤ, none, List}
use cki_artifact.Pkm.Abi.{
  Request, create_cntr, cntr_start, get_phys_base, get_phys_base2, get_vring_info, set_vring_efds,
  einval,
}
use cki_artifact.Pkm.State.{Cntr}
use cki_artifact.Pkm.World.{
  Kernel, misc_register, misc_deregister, Cmd, pure, ◌>>=◌, ◌>>◌, emit, done,
}
use cki_artifact.Pkm.Create.{Created}
use cki_artifact.Pkm.Create
use cki_artifact.Pkm.Start.{Exit, Finish, returned, cntr_ioctl_start}
use cki_artifact.Pkm.Vring.{
  cntr_ioctl_get_phys_base, cntr_ioctl_get_phys_base2, cntr_ioctl_get_vring_info,
  cntr_ioctl_set_vring_efds,
}

module _ (k : Kernel) where
  -- `pkm_cntr_ioctl`; the last two arguments are those of a start.
  unfoldable pub cntr_ioctl : Request → Cntr → (garbage : ℕ) → List Exit → Cmd Finish
  unfolding cntr_ioctl_start cntr_ioctl_get_phys_base cntr_ioctl_get_phys_base2
      cntr_ioctl_get_vring_info cntr_ioctl_set_vring_efds
  cntr_ioctl cntr_start c garbage exits = cntr_ioctl_start k c garbage exits
  cntr_ioctl get_phys_base c garbage exits = do
    r ← cntr_ioctl_get_phys_base k c
    pure (returned r c)
  cntr_ioctl get_phys_base2 c garbage exits = do
    r ← cntr_ioctl_get_phys_base2 k c
    pure (returned r c)
  cntr_ioctl get_vring_info c garbage exits = do
    r ← cntr_ioctl_get_vring_info k c
    pure (returned r c)
  cntr_ioctl set_vring_efds c garbage exits = do
    (r, c') ← cntr_ioctl_set_vring_efds k c
    pure (returned r c')
  cntr_ioctl _ c garbage exits = pure (returned einval c)

  -- `pkm_dev_ioctl`
  unfoldable pub dev_ioctl : Request → Cmd Created
  unfolding Create.create_cntr
  dev_ioctl create_cntr = Create.create_cntr k
  dev_ioctl _ = pure (record { result = einval; cntr = none })

  -- `pkm_init` and `pkm_exit`.
  unfoldable pub init : Cmd ℤ
  init = do set_idt; emit misc_register; pure k.misc_register_result
    where
      set_idt : Cmd (Unit {0})
      set_idt w = done tt (record w { host_idt_base = k.store_idt })

  unfoldable pub exit : Cmd (Unit {0})
  exit = emit misc_deregister
