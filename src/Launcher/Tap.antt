-- ===== src/Launcher/Tap.antt =====
-- `tap_open` of main.c: a TAP device with the wanted features.
pub mod Settled
pub mod Outcomes
use Prim.Native.String.{String}
use cki_artifact.Base.{
  ℕ, zero, suc, ◌==◌, bit_and, bit_or, Bool, false, not, ◌&&◌, if◌then◌else◌, ℤ, pos, negsuc, neg,
  ◌∷◌,
}
use cki_artifact.Launcher.System.{
  Os, Sys, pure, done, running, ◌>>=◌, ◌>>◌, call, is_negative, open_file, close, set_nonblock,
  tun_get_features, tun_set_vnet_hdr_sz, tun_set_iff,
}

-- The interface flags, and `IFNAMSIZ`, `EINTR` and the size of `struct virtio_net_hdr`.
abbrev pub iff_multi_queue : ℕ
iff_multi_queue = 0x0100

abbrev pub iff_tap_no_pi : ℕ
iff_tap_no_pi = 0x1002

abbrev pub iff_one_queue : ℕ
iff_one_queue = 0x2000

abbrev pub iff_vnet_hdr : ℕ
iff_vnet_hdr = 0x4000

abbrev ifnamsiz : ℕ
ifnamsiz = 16

abbrev eintr : ℕ
eintr = 4

abbrev virtio_net_hdr_size : ℕ
virtio_net_hdr_size = 10

-- What a caller of `tap_open` gets: its result, and what it leaves in `*vnet_hdr` and `ifname`.
pub record Tap : Type 0 where
  pub fd : ℤ
  pub vnet_hdr : Bool
  pub ifname : String

abbrev has : (features flag : ℕ) → Bool
has features flag = not (bit_and features flag == 0)

abbrev is_minus_one : ℤ → Bool
is_minus_one (pos _) = false
is_minus_one (negsuc e) = e == 0

abbrev is_zero : ℤ → Bool
is_zero (pos n) = n == 0
is_zero (negsuc _) = false

module _ (os : Os) where
  -- `TFR(fd = open("/dev/net/tun", O_RDWR))`, for a number of attempts.
  unfoldable pub open_tun : (attempts : ℕ) → Sys ℤ
  open_tun zero log = running log
  open_tun (suc n) log =
      let fd = os.answer log (open_file "/dev/net/tun") in
      let log' = open_file "/dev/net/tun" ∷ log in
      let again = open_tun n log' in
      if is_minus_one fd && (os.errno log' == eintr) then again else done fd log'

  -- `close(fd); return -1;`
  fail : (fd : ℤ) (vnet_hdr : Bool) (ifname : String) → Sys Tap
  unfolding call
  fail fd vnet_hdr ifname = do
    call os (close fd)
    pure (record { fd = neg 1; vnet_hdr = vnet_hdr; ifname = ifname })

  -- From the interface's name to the end.
  set_iff : (fd : ℤ) (flags size : ℕ) (vnet_hdr : Bool) (ifname : String) → Sys Tap
  unfolding call fail
  set_iff fd flags size vnet_hdr ifname log =
      let name = os.strncpy (if os.is_empty ifname then "tap%d" else ifname) ifnamsiz in
      let log' = tun_set_iff fd flags name ∷ log in
      if is_zero (os.answer log (tun_set_iff fd flags name))
      then (do
        call os (set_nonblock fd)
        pure (record {
          fd = fd;
          vnet_hdr = vnet_hdr;
          ifname = os.strncpy (os.iff_name log' name) size;
        }))
          log'
      else fail fd vnet_hdr ifname log'

  -- The multi-queue requirement.
  add_queues :
      (fd : ℤ) (features flags size : ℕ) (vnet_hdr mq_required : Bool) (ifname : String) → Sys Tap
  unfolding fail set_iff
  add_queues fd features flags size vnet_hdr mq_required ifname =
      if mq_required
      then if has features iff_multi_queue
        then set_iff fd (bit_or flags iff_multi_queue) size vnet_hdr ifname
        else fail fd vnet_hdr ifname
      else set_iff fd flags size vnet_hdr ifname

  -- The header of each packet: asked for, and perhaps required.
  pub add_vnet_hdr :
      (fd : ℤ) (features flags size : ℕ) (vnet_hdr required mq_required : Bool) (ifname : String)
      → Sys Tap
  unfolding call fail add_queues
  add_vnet_hdr fd features flags size vnet_hdr required mq_required ifname =
      let hdr = has features iff_vnet_hdr in
      let flags' = (if hdr then bit_or flags iff_vnet_hdr else flags) in
      if vnet_hdr
      then if required && not hdr
        then fail fd hdr ifname
        else call os (tun_set_vnet_hdr_sz fd virtio_net_hdr_size)
          >> add_queues fd features flags' size hdr mq_required ifname
      else add_queues fd features flags size vnet_hdr mq_required ifname

  -- `size` is `ifname_size`.
  unfoldable pub tap_open :
      (attempts size : ℕ) (vnet_hdr required mq_required : Bool) (ifname : String) → Sys Tap
  unfolding open_tun is_negative add_vnet_hdr
  tap_open attempts size vnet_hdr required mq_required ifname = open_tun attempts >>= λ fd log.
      if is_negative fd
      then done (record { fd = neg 1; vnet_hdr = vnet_hdr; ifname = ifname }) log
      else let log' = tun_get_features fd ∷ log in
        let features =
          if is_minus_one (os.answer log (tun_get_features fd)) then 0 else os.tun_features log' in
        let flags =
          if has features iff_one_queue
          then bit_or iff_tap_no_pi iff_one_queue
          else iff_tap_no_pi in
        add_vnet_hdr fd features flags size vnet_hdr required mq_required ifname log'
