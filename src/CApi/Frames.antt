-- ===== src/CApi/Frames.antt =====
-- Frames on their way through the C interface.
use gsusb_canfd.Prelude.{
  ℕ, ◌+◌, ◌≤◌, ◌≡◌, refl, min, List, arith, ltb, if◌then◌else◌, length, replicate, get_or-replicate,
}
use gsusb_canfd.Prelude.Store.{byte_at, copy_loop, byte_at-copy_loop}
use gsusb_canfd.Floats.{Double}
use gsusb_canfd.CApi.{CanFdFrame, to_bus_frame, to_c_frame, flag, is_set}

-- `c` is `sent` with its flags reduced to 0 and 1, its size cut to 64, zeros behind the payload,
-- and no echo mark, overflow or timestamp.
pub record IsCopyOf {D : Type 0} (F : Double D) (sent c : CanFdFrame D) : Type 0 where
  pub id : c.id ≡ sent.id
  pub size : c.size ≡ min sent.size 64
  pub channel : c.channel ≡ sent.channel
  pub extended : c.extended ≡ min sent.extended 1
  pub fd : c.fd ≡ min sent.fd 1
  pub brs : c.brs ≡ min sent.brs 1
  pub remote : c.remote ≡ min sent.remote 1
  pub error : c.error ≡ min sent.error 1
  pub echo : c.echo ≡ 0
  pub overflow : c.overflow ≡ 0
  pub timestamp : c.timestamp ≡ F.literal 0 0
  pub payload :
      (j : ℕ) → byte_at c.bytes j ≡ (if ltb j (min sent.size 64) then byte_at sent.bytes j else 0)

flag-is_set : (n : ℕ) → flag (is_set n) ≡ min n 1
flag-is_set n = ground arith

-- A copy of at most 64 bytes into an array of zeros.
pub fresh_copy :
    (n : ℕ) (src : List ℕ) (j : ℕ)
    → n ≤ 64
    → byte_at (copy_loop n 0 src 0 (replicate 64 0) 0) j ≡ (if ltb j n then byte_at src j else 0)
fresh_copy n src j fits =
    let zeros : List ℕ = replicate 64 0 in
    let room : 0 + 0 + n ≤ length zeros = omega (arith, fits) in
    ground (arith, byte_at-copy_loop n 0 src 0 zeros 0 j room, get_or-replicate {A = ℕ} 64 j 0)

-- A C frame that is turned into a frame of the bus and back is the same frame, with its flags
-- reduced to 0 and 1, its size cut to 64, zeros behind its payload, and no echo mark, overflow or
-- timestamp.
pub to_c_frame-to_bus_frame :
    {D : Type 0} (F : Double D) (sent : CanFdFrame D)
    → IsCopyOf F sent (to_c_frame F (to_bus_frame F sent))
unfolding to_c_frame to_bus_frame
to_c_frame-to_bus_frame F sent = record {
  id = refl;
  size = refl;
  channel = refl;
  extended = flag-is_set sent.extended;
  fd = flag-is_set sent.fd;
  brs = flag-is_set sent.brs;
  remote = flag-is_set sent.remote;
  error = flag-is_set sent.error;
  echo = refl;
  overflow = refl;
  timestamp = refl;
  payload = λ j.
      let n = min sent.size 64 in
      let inner = copy_loop n 0 sent.bytes 0 (replicate 64 0) 0 in
      ground (arith, fresh_copy n inner j (omega arith), fresh_copy n sent.bytes j (omega arith));
}
