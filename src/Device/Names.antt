-- ===== src/Device/Names.antt =====
-- AdapterInfo::name, displayName and uniqueName of src/device.cpp. The buffers of snprintf are
-- larger than any text that is printed into them.
use gsusb_canfd.Prelude.{
  ℕ, ◌^◌, ◌<◌, ◌≡◌, refl, ap, sym, ◌∙◌, not, ◌&&◌, [], ◌∷◌, ◌++◌, arith, if◌then◌else◌, Bool-cases,
  inl, inr,
}
use mathlib.Core.List.{append_assoc, append_cancel_left}
use gsusb_canfd.Text.{Bytes, codes}
use gsusb_canfd.Text.Print.{print_hex}
use gsusb_canfd.Text.Scan.{read_digits}
use gsusb_canfd.Text.Hex.{read_digits-print_hex}
use gsusb_canfd.Usb.Text.{is_empty}
use gsusb_canfd.Usb.Discovery.{AdapterInfo}

-- %04X:%04X
abbrev pub print_ids : AdapterInfo → Bytes
print_ids info = print_hex 4 info.vendor_id ++ (b':' ∷ print_hex 4 info.product_id)

unfoldable pub name : AdapterInfo → Bytes
name info =
    if not (is_empty info.manufacturer) && not (is_empty info.product)
    then info.manufacturer ++ (b' ' ∷ info.product)
    else if not (is_empty info.product)
    then info.product
    else if not (is_empty info.manufacturer)
    then info.manufacturer
    else codes "gs_usb " ++ print_ids info

unfoldable pub display_name : AdapterInfo → Bytes
display_name info = name info ++ (codes " (" ++ (print_ids info ++ codes ")"))

unfoldable pub unique_name : AdapterInfo → Bytes
unique_name info =
    if is_empty info.serial
    then display_name info
    else display_name info ++ (codes " SN:" ++ info.serial)

-- What follows the name in a unique name, from the vendor id on.
abbrev tail_of : AdapterInfo → Bytes
tail_of info =
    print_hex 4 info.vendor_id
    ++ (b':'
        ∷ (print_hex 4 info.product_id
            ++ (b')' ∷ (if is_empty info.serial then [] else codes " SN:" ++ info.serial))))

unique_name-eq : (info : AdapterInfo) → unique_name info ≡ name info ++ (codes " (" ++ tail_of info)
unfolding unique_name display_name
unique_name-eq info = elim (Bool-cases (is_empty info.serial)) [
  | inl bare ↦ rw (bare, unique_name, display_name) (simp append_assoc refl)
  | inr named ↦ rw (named, unique_name, display_name) (simp append_assoc refl)
]

-- An identifier of 16 bits, printed in front of a byte that is no digit, is the same in both texts.
leading_id :
    (v w : ℕ) (s t : Bytes)
    → v < 2 ^ 16
    → w < 2 ^ 16
    → read_digits 16 v s ≡ v
    → read_digits 16 w t ≡ w
    → print_hex 4 v ++ s ≡ print_hex 4 w ++ t
    → (v ≡ w) × (s ≡ t)
leading_id v w s t hv hw es et e =
    let same : v ≡ w =
      sym es
      ∙ sym (read_digits-print_hex 4 v s (omega (arith, hv)))
      ∙ ap (read_digits 16 0) e
      ∙ read_digits-print_hex 4 w t (omega (arith, hw))
      ∙ et in
    (
      same,
      append_cancel_left (print_hex 4 v) s t (e ∙ ap (λ (k : ℕ). print_hex 4 k ++ t) (sym same)),
    )

same_serial :
    (s t : Bytes)
    → ◌≡◌ {A = Bytes}
        (if is_empty s then [] else codes " SN:" ++ s)
        (if is_empty t then [] else codes " SN:" ++ t)
    → s ≡ t
same_serial [] [] e = refl
same_serial [] (c ∷ t) e = cc
same_serial (c ∷ s) [] e = cc
same_serial (c ∷ s) (d ∷ t) e = append_cancel_left (codes " SN:") (c ∷ s) (d ∷ t) e

-- Two adapters with 16-bit ids and one `name` that have the same unique
-- name have the same ids and the same serial.
pub unique_name-inj :
    (a b : AdapterInfo)
    → a.vendor_id < 2 ^ 16
    → a.product_id < 2 ^ 16
    → b.vendor_id < 2 ^ 16
    → b.product_id < 2 ^ 16
    → name a ≡ name b
    → unique_name a ≡ unique_name b
    → (a.vendor_id ≡ b.vendor_id) × (a.product_id ≡ b.product_id) × (a.serial ≡ b.serial)
unfolding read_digits
unique_name-inj a b va pa vb pb names e =
    let whole : name a ++ (codes " (" ++ tail_of a) ≡ name a ++ (codes " (" ++ tail_of b) =
      sym (unique_name-eq a)
      ∙ e
      ∙ unique_name-eq b
      ∙ ap (λ (n : Bytes). n ++ (codes " (" ++ tail_of b)) (sym names) in
    let tails : tail_of a ≡ tail_of b =
      append_cancel_left (codes " (") (tail_of a) (tail_of b)
        (append_cancel_left (name a) _ _ whole) in
    let (vendors, rest) = leading_id a.vendor_id b.vendor_id _ _ va vb refl refl tails in
    let (products, serials) =
      leading_id a.product_id b.product_id _ _ pa pb refl refl
        (append_cancel_left (b':' ∷ []) _ _ rest) in
    (vendors, products, same_serial a.serial b.serial (append_cancel_left (b')' ∷ []) _ _ serials))
