-- ===== src/Frame/Dlc.antt =====
-- The DLC codes: `length_to_dlc` finds the least code that covers a length, and inverts
-- `dlc_to_length`.
use gsusb_canfd.Prelude.{
  ℕ, zero, suc, ◌≤◌, ◌<◌, ◌≡◌, refl, Bool, true, false, ◌&&◌, arith, ltb, leb, ◌==◌, if◌then◌else◌,
  get_or,
}
use gsusb_canfd.Errors.{ok, err, argument_error, Message}
use gsusb_canfd.Frame.{k_dlc_to_len, dlc_search, length_to_dlc, dlc_to_length}

-- Every value below a bound passes a test.
-- A test of every number below a bound, by evaluation.
every : (test : ℕ → Bool) (bound : ℕ) → Bool
every test zero = true
every test (suc last) = every test last && test last

every_at : (test : ℕ → Bool) (bound at : ℕ) → at < bound → every test bound ≡ true → test at ≡ true
unfolding every
every_at test (suc last) at below h = ground (arith, every_at test last at)
every_at test zero at below h = absurd (omega (arith, below))

abbrev fd_code : ℕ → ℕ
fd_code n = dlc_search 16 0 n

-- The code is one of 16, its length covers the input, and no smaller code does.
covers_table :
    every
      (λ n.
        ltb (fd_code n) 16
        && leb n (get_or k_dlc_to_len (fd_code n) 0)
        && every (λ e. ltb (get_or k_dlc_to_len e 0) n) (fd_code n))
      65
    ≡ true
unfolding every dlc_search
covers_table = refl

inverse_table : every (λ d. fd_code (get_or k_dlc_to_len d 0) == d) 16 ≡ true
unfolding every dlc_search
inverse_table = refl

lengths_table : every (λ d. leb (get_or k_dlc_to_len d 0) 64) 16 ≡ true
unfolding every
lengths_table = refl

-- The most payload bytes that a frame of the kind carries.
abbrev pub capacity : Bool → ℕ
capacity fd = if fd then 64 else 8

-- `d` is the least code whose payload holds `n` bytes.
pub record IsLeastDlc (fd : Bool) (n d : ℕ) : Type 0 where
  pub is_code : d < 16
  pub covers : n ≤ dlc_to_length d fd
  pub least : (e : ℕ) → e < d → dlc_to_length e fd < n

fd_code-IsLeastDlc : (n : ℕ) → n ≤ 64 → IsLeastDlc true n (fd_code n)
unfolding dlc_to_length
fd_code-IsLeastDlc n h =
    let row = every_at _ 65 n (omega arith) covers_table in
    record {
      is_code = ground arith;
      covers = ground arith;
      least = λ e lt. ground (arith, every_at (λ e. ltb (get_or k_dlc_to_len e 0) n) (fd_code n) e);
    }

classic-IsLeastDlc : (n : ℕ) → n ≤ 8 → IsLeastDlc false n n
unfolding dlc_to_length
classic-IsLeastDlc n h = record {
  is_code = omega arith;
  covers = ground arith;
  least = λ e lt. ground arith;
}

pub length_to_dlc-IsLeastDlc :
    (n : ℕ) (fd : Bool)
    → n ≤ capacity fd
    → (d : ℕ) × (length_to_dlc n fd ≡ ok d) × IsLeastDlc fd n d
unfolding length_to_dlc
length_to_dlc-IsLeastDlc n true h = (fd_code n, ground arith, fd_code-IsLeastDlc n h)
length_to_dlc-IsLeastDlc n false h = (n, ground arith, classic-IsLeastDlc n h)

-- A length above the capacity is refused as an argument error of its kind.
pub length_to_dlc-too_long :
    (n : ℕ) (fd : Bool)
    → capacity fd < n
    → length_to_dlc n fd
      ≡ err (
          argument_error
            (if fd then Message.fd_payload_over_64 else Message.classic_payload_over_8))
unfolding length_to_dlc
length_to_dlc-too_long n true h = ground arith
length_to_dlc-too_long n false h = ground arith

-- No code, known or not, stands for more than the capacity.
pub dlc_to_length-le : (d : ℕ) (fd : Bool) → dlc_to_length d fd ≤ capacity fd
unfolding dlc_to_length
dlc_to_length-le d true =
    let short =
      λ (lt : d < 16). every_at (λ e. leb (get_or k_dlc_to_len e 0) 64) 16 d lt lengths_table in
    ground (arith, short)
dlc_to_length-le d false = ground arith

-- The codes a frame kind uses: 0 to 15 for CAN FD and 0 to 8 for classic CAN.
abbrev pub IsCodeOf : Bool → ℕ → Type 0
IsCodeOf fd d = d < (if fd then 16 else 9)

-- Every code of the kind is found again from the length that it stands for.
pub length_to_dlc-dlc_to_length :
    (d : ℕ) (fd : Bool) → IsCodeOf fd d → length_to_dlc (dlc_to_length d fd) fd ≡ ok d
unfolding length_to_dlc dlc_to_length
length_to_dlc-dlc_to_length d true h = ground (
  arith,
  every_at (λ d. fd_code (get_or k_dlc_to_len d 0) == d) 16 d (omega arith) inverse_table,
  every_at (λ d. leb (get_or k_dlc_to_len d 0) 64) 16 d (omega arith) lengths_table,
)
length_to_dlc-dlc_to_length d false h = ground arith
