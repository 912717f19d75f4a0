-- ===== src/Pkm/Create.antt =====
-- `pkm_dev_ioctl_create_cntr` of pkm_main.c with the labels that its errors jump to, and
-- `pkm_cntr_release` with `deinit_virtio_net`. Each label is a function that goes on with the next.
pub mod Cleanup
pub mod Failures
pub mod Numbering
pub mod Settled
pub mod Steps
pub mod Balance
pub mod Release
use cki_artifact.Base.{
  ℕ, ◌+◌, Bool, false, not, ◌==◌, ltb, if◌then◌else◌, u32, ℤ, pos, negsuc, Option, none, some, [],
  ◌∷◌,
}
use cki_artifact.Pkm.Abi.{
  CntrArgs, cntr_mem_npages, cntr_initrd_npages, cntr_max_pcid, einval, enomem, eoverflow,
}
use cki_artifact.Pkm.State.{Cntr, VirtioNet, VirtioQueue}
use cki_artifact.Pkm.World.{
  Kernel, World, Resource, page, slab, pinned, eventfd, file, fd, Event, acquire, release,
  wait_remove, fd_install, Cmd, pure, ◌>>=◌, ◌>>◌, emit, done,
}
use cki_artifact.Pkm.Mmio.{init_virtio_net}
use cki_artifact.Pkm.Boot.{
  create_boot_pgtbl, free_boot_pgtbl, create_boot_params, free_boot_params, create_cpus, free_cpus,
  init_ctxs,
}

-- What the request returns, and the container behind the new file.
pub record Created : Type 0 where
  pub result : ℤ
  pub cntr : Option Cntr

-- `__sync_fetch_and_add(&next_cntr_pcid, 1)` on an `unsigned int`.
unfoldable pub next_pcid : Cmd ℕ
next_pcid w = done w.next_cntr_pcid (record w { next_cntr_pcid = u32 (w.next_cntr_pcid + 1) })

-- `kfree` of a container, and `put_page`.
abbrev pub kfree : ℕ → Cmd (Unit {0})
kfree p = if p == 0 then pure tt else emit (release (slab p))

abbrev pub put_page : ℕ → Cmd (Unit {0})
put_page p = emit (release (pinned p))

abbrev pub out_fail : ℤ → Cmd Created
out_fail r = pure (record { result = r; cntr = none })

pub out_free_cntr : Cntr → ℤ → Cmd Created
out_free_cntr c r = kfree c.self >> out_fail r

pub out_put_mem_hpage : Cntr → ℤ → Cmd Created
out_put_mem_hpage c r = put_page c.mem_hpage >> out_free_cntr c r

pub out_put_mem2_hpage : Cntr → ℤ → Cmd Created
out_put_mem2_hpage c r = put_page c.mem2_hpage >> out_put_mem_hpage c r

pub out_put_initrd_hpage : Cntr → ℤ → Cmd Created
out_put_initrd_hpage c r = put_page c.initrd_hpage >> out_put_mem2_hpage c r

module _ (k : Kernel) where
  pub out_free_boot_pgtbl : Cntr → ℤ → Cmd Created
  out_free_boot_pgtbl c r = free_boot_pgtbl k c.boot_pgtbl >> out_put_initrd_hpage c r

  pub out_free_boot_params : Cntr → ℤ → Cmd Created
  out_free_boot_params c r = free_boot_params k c.boot_params >> out_free_boot_pgtbl c r

  pub out_free_cpus : Cntr → ℤ → Cmd Created
  out_free_cpus c r = free_cpus k c.cpus >> out_free_boot_params c r

  pub out_put_fd : Cntr → ℕ → ℤ → Cmd Created
  out_put_fd c n r = emit (release (fd n)) >> out_free_cpus c r

  abbrev kmalloc_cntr : Cmd ℕ
  kmalloc_cntr w =
      let p = k.kmalloc_cntr w.log in
      if p == 0 then done 0 w else done p (record w { log = acquire (slab p) ∷ w.log })

  -- `get_user_pages_fast` of one page: pinned where the answer is 1.
  abbrev is_one : ℤ → Bool
  is_one (pos n) = n == 1
  is_one (negsuc n) = false

  pub get_user_page : ℕ → Cmd (ℤ × ℕ)
  get_user_page addr w =
      let (r, p) = k.get_user_pages w.log addr in
      done (r, p) (if is_one r then record w { log = acquire (pinned p) ∷ w.log } else w)

  -- From `anon_inode_getfile` on.
  pub open_file : Cntr → ℕ → Cmd Created
  open_file c n w = elim (k.anon_inode_getfile w.log) [
    | negsuc e ↦ out_put_fd c n (negsuc e) w
    | pos f ↦
        done (record { result = pos n; cntr = some c })
          (record w { log = fd_install n f ∷ acquire (file f) ∷ w.log })
  ]

  -- From `get_unused_fd_flags` on.
  pub reserve_fd : Cntr → Cmd Created
  reserve_fd c w = elim (k.get_unused_fd w.log) [
    | negsuc e ↦ out_free_boot_params c (negsuc e) w
    | pos n ↦ open_file c n (record w { log = acquire (fd n) ∷ w.log })
  ]

  -- `init_virtio_net`, `init_ctxs` and `skb_queue_head_init`.
  pub init_cntr : Cntr → Cntr
  init_cntr c =
      let c' = record c { virtio_net = init_virtio_net c.self c.virtio_net } in
      record (init_ctxs k c') { rx_pkts = [] }

  -- From `create_boot_params` on.
  pub make_params : Cntr → CntrArgs → Cmd Created
  make_params c args = do
    p ← create_boot_params k c args
    let c' = record c { boot_params = p }
    if p == 0 then out_free_cpus c' enomem else reserve_fd (init_cntr c')

  -- From `create_cpus` on.
  pub make_cpus : Cntr → CntrArgs → Cmd Created
  make_cpus c args = do
    (p, cpu) ← create_cpus k c
    let c' = record c { cpus = p; cpu = cpu }
    if p == 0 then out_free_boot_pgtbl c' enomem else make_params c' args

  -- From `create_boot_pgtbl` on.
  pub make_pgtbl : Cntr → CntrArgs → Cmd Created
  make_pgtbl c args = do
    p ← create_boot_pgtbl k
    if p == 0 then out_put_initrd_hpage c enomem else do
      pcid ← next_pcid
      let c' = record c { boot_pgtbl = p; pcid = pcid }
      if ltb cntr_max_pcid pcid then out_free_boot_pgtbl c' eoverflow else make_cpus c' args

  -- The three pages of memory, the last first.
  pub pin_initrd : Cntr → CntrArgs → Cmd Created
  pin_initrd c args = do
    (r, p) ← get_user_page args.initrd
    let c' = record c { initrd_hpage = p }
    if not (is_one r)
        then out_put_mem2_hpage c' r
        else if not (k.compound_nr p == cntr_initrd_npages)
        then out_put_initrd_hpage c' einval
        else make_pgtbl c' args

  pub pin_mem2 : Cntr → CntrArgs → Cmd Created
  pin_mem2 c args = do
    (r, p) ← get_user_page args.mem2
    let c' = record c { mem2_hpage = p }
    if not (is_one r)
        then out_put_mem_hpage c' r
        else if not (k.compound_nr p == cntr_mem_npages)
        then out_put_mem2_hpage c' einval
        else pin_initrd c' args

  pub pin_mem : Cntr → CntrArgs → Cmd Created
  pin_mem c args = do
    (r, p) ← get_user_page args.mem
    let c' = record c { mem_hpage = p }
    if not (is_one r)
        then out_free_cntr c' r
        else if not (k.compound_nr p == cntr_mem_npages)
        then out_put_mem_hpage c' einval
        else pin_mem2 c' args

  -- `pkm_dev_ioctl_create_cntr`. The first failure returns the count of bytes not copied.
  unfoldable pub create_cntr : Cmd Created
  unfolding out_free_cntr out_put_mem_hpage out_put_mem2_hpage out_put_initrd_hpage
      out_free_boot_pgtbl out_free_boot_params out_free_cpus out_put_fd get_user_page open_file
      reserve_fd init_cntr make_params make_cpus make_pgtbl pin_initrd pin_mem2 pin_mem next_pcid
      init_virtio_net init_ctxs create_boot_pgtbl free_boot_pgtbl create_boot_params
      free_boot_params create_cpus free_cpus
  create_cntr w =
      let (left, args) = k.copy_cntr_args w.log in
      if not (left == 0)
      then out_fail (pos left) w
      else let contents = k.kmalloc_contents w.log in
        (kmalloc_cntr >>= λ p.
        if p == 0
        then out_fail enomem
        else pin_mem (record contents { self = p; n_cpus = k.num_online_cpus }) args)
          w

-- `deinit_virtio_net`, one queue: its eventfds are given back, the second one's waiter removed.
put_queue : VirtioQueue → Cmd (Unit {0})
put_queue q = do
  if q.kick == 0 then pure tt else emit (release (eventfd q.kick))
  if q.call == 0 then pure tt else (emit (wait_remove q.call) >> emit (release (eventfd q.call)))

unfoldable pub deinit_virtio_net : VirtioNet → Cmd (Unit {0})
unfolding put_queue
deinit_virtio_net net = put_queue (net.queues 0) >> put_queue (net.queues 1)

-- `pkm_cntr_release`: the file's container is given back, in the order of the source.
unfoldable pub cntr_release : Kernel → Cntr → Cmd (Unit {0})
unfolding free_boot_pgtbl free_boot_params free_cpus deinit_virtio_net
cntr_release k c = do
  put_page c.mem_hpage
  put_page c.mem2_hpage
  put_page c.initrd_hpage
  free_boot_pgtbl k c.boot_pgtbl
  free_boot_params k c.boot_params
  free_cpus k c.cpus
  deinit_virtio_net c.virtio_net
  kfree c.self
