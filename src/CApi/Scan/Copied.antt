-- ===== src/CApi/Scan/Copied.antt =====
-- What a scan leaves in the caller's array.
use gsusb_canfd.Prelude.{
  ℕ, zero, suc, ◌+◌, ◌-◌, ◌≤◌, ◌<◌, ◌≡◌, refl, ap, sym, ◌∙◌, min, Bool, true, false, ◌==◌, List, [],
  ◌∷◌, ◌++◌, arith, length, take, replicate, ◌⊎◌, Bool-cases, inl, inr, length-replicate,
}
use gsusb_canfd.Prelude.Int.{ℤ, pos, negsuc, pos_part}
use gsusb_canfd.Text.{Bytes}
use gsusb_canfd.Errors.{Result, ok, err}
use gsusb_canfd.Usb.{Libusb, Log}
use gsusb_canfd.Usb.Discovery.{AdapterInfo, scan_adapters}
use gsusb_canfd.CApi.{LastError, k_error}
use gsusb_canfd.CApi.Scan.{until_nul, copy_string, copy_infos, Scanned, scanned, canfd_scan}

module _ {A : Type 0} where
  length-take_le : (n : ℕ) (xs : List A) → length (take n xs) ≤ n
  length-take_le zero xs = omega arith
  length-take_le (suc n) [] = omega arith
  length-take_le (suc n) (x ∷ xs) = omega (arith, length-take_le n xs)

  length-join : (xs ys : List A) → length (xs ++ ys) ≡ length xs + length ys
  length-join [] ys = omega arith
  length-join (x ∷ xs) ys = omega (arith, length-join xs ys)

-- A text without a 0, in front of a 0.
until_nul-kept :
    (n : ℕ) (text rest : Bytes)
    → until_nul (take n (until_nul text) ++ (0 ∷ rest)) ≡ take n (until_nul text)
unfolding until_nul
until_nul-kept zero text rest = refl
until_nul-kept (suc n) [] rest = refl
until_nul-kept (suc n) (c ∷ cs) rest = elim (Bool-cases (c == 0)) [
  | inl e ↦ rw (e, until_nul) refl
  | inr e ↦
      rw (e, until_nul) (rw (e, until_nul) (ap (λ (t : Bytes). c ∷ t) (until_nul-kept n cs rest)))
]

replicate-suc : (n : ℕ) → 0 < n → replicate {A = ℕ} n 0 ≡ 0 ∷ replicate (n - 1) 0
replicate-suc zero h = absurd (omega (arith, h))
replicate-suc (suc n) h = ground arith

-- A text that is copied into an array of at least one byte fills it exactly, and what is read back
-- up to the first 0 is the text up to its first 0, cut to what leaves room for one 0.
pub copy_string-until_nul :
    (size : ℕ) (text : Bytes)
    → 0 < size
    → (length (copy_string size text) ≡ size)
      × (until_nul (copy_string size text) ≡ take (size - 1) (until_nul text))
unfolding copy_string
copy_string-until_nul size text h =
    let kept = take (size - 1) (until_nul text) in
    let short = length-take_le (size - 1) (until_nul text) in
    (
      omega (
        arith,
        length-join kept (replicate (size - length kept) 0),
        length-replicate {A = ℕ} (size - length kept) 0,
        short,
        h,
      ),
      ap (λ (zeros : Bytes). until_nul (kept ++ zeros))
            (replicate-suc (size - length kept) (omega (arith, short, h)))
          ∙ until_nul-kept (size - 1) text (replicate {A = ℕ} (size - length kept - 1) 0),
    )

length-copy_infos :
    (room : ℕ) (found : List AdapterInfo)
    → room ≤ length found
    → length (copy_infos room found) ≡ room
unfolding copy_infos
length-copy_infos zero found h = refl
length-copy_infos (suc room) [] h = absurd (omega (arith, h))
length-copy_infos (suc room) (a ∷ found) h =
    omega (arith, length-copy_infos room found (omega (arith, h)))

-- A scan writes no more entries than there is room for, and its result counts them or is an error.
abbrev pub IsFitting : (max : ℤ) → Scanned → Type 0
IsFitting max s =
    (length s.written ≤ pos_part max) × ((s.status ≡ k_error) ⊎ (s.status ≡ pos (length s.written)))

scanned-IsFitting :
    (room : ℕ) (last : LastError) (r : Result (List AdapterInfo) × Log)
    → IsFitting (pos room) (scanned room last r)
scanned-IsFitting room last (err e, log) = (omega arith, inl refl)
scanned-IsFitting room last (ok found, log) =
    let same = length-copy_infos (min room (length found)) found (omega arith) in
    (omega (arith, same), inr (ap pos (sym same)))

-- canfd_scan writes no more entries than `max`, and none if that is negative or the array is null,
-- and what it returns is the number of entries written or CANFD_ERROR.
pub canfd_scan-IsFitting :
    (usb : Libusb) (has_out : Bool) (max : ℤ) (last : LastError) (log : Log)
    → IsFitting max (canfd_scan usb has_out max last log)
      × (has_out ≡ false → (canfd_scan usb has_out max last log).written ≡ [])
unfolding canfd_scan
canfd_scan-IsFitting usb false max last log = ((omega arith, inl refl), λ _. refl)
canfd_scan-IsFitting usb true (negsuc n) last log = ((omega arith, inl refl), λ e. cc)
canfd_scan-IsFitting usb true (pos room) last log =
    (scanned-IsFitting room last (scan_adapters usb 0 0 log), λ e. cc)
