-- ===== src/Errors.antt =====
-- include/canfd/error.hpp: the exception classes. A message is a value of `Message`, with one
-- constructor for each text that the library throws and the numbers printed into it.
use gsusb_canfd.Prelude.{ℕ, ◌≡◌, ◌⊎◌, refl, inl, inr}
use gsusb_canfd.Prelude.Int.{ℤ}

pub data ErrorCode : Type 0 where
  k_none k_not_found k_timeout k_bus k_argument : ErrorCode

pub data Message : Type 0 where
  -- frame.cpp
  classic_payload_over_8 fd_payload_over_64 payload_too_large short_frame : Message
  -- bit_timing.cpp
  bitrate_zero sample_point_range clock_unknown : Message
  no_bit_timing : (bitrate fclk : ℕ) → Message
  -- usb_transport.cpp
  init_failed device_list_failed no_device no_bulk_endpoints claim_failed : Message
  index_out_of_range : (available : ℕ) → Message
  open_failed : (rc : ℤ) → Message
  control_failed : (request : ℕ) (rc : ℤ) → Message
  write_timed_out : Message
  write_failed read_failed : (rc : ℤ) → Message
  -- device.cpp
  no_timing_constants open_before_configure no_can_fd no_fd_constants : Message
  -- c_api.cpp
  invalid_argument : Message
  -- device.cpp, modes and state
  no_listen_only no_loopback no_one_shot not_started fd_on_classic already_running : Message

pub record CanFdError : Type 0 where
  pub what : Message
  pub code : ErrorCode

abbrev pub not_found_error : Message → CanFdError
not_found_error what = record { what = what; code = k_not_found }

abbrev pub timeout_error : Message → CanFdError
timeout_error what = record { what = what; code = k_timeout }

abbrev pub bus_error : Message → CanFdError
bus_error what = record { what = what; code = k_bus }

abbrev pub argument_error : Message → CanFdError
argument_error what = record { what = what; code = k_argument }

-- What a call returns or throws.
pub data Result {ℓ} (A : Type ℓ) : Type ℓ where
  ok : A → Result A
  err : CanFdError → Result A

infixl 5 ◌>>=◌
abbrev pub ◌>>=◌ {ℓ κ} : {A : Type ℓ} {B : Type κ} → Result A → (A → Result B) → Result B
ok a >>= f = f a
err e >>= f = err e

-- A split that keeps an equation.
pub Result-cases :
    {A : Type 0} (r : Result A) → ((a : A) × (r ≡ ok a)) ⊎ ((e : CanFdError) × (r ≡ err e))
Result-cases (ok a) = inl (a, refl)
Result-cases (err e) = inr (e, refl)
