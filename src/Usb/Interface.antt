-- ===== src/Usb/Interface.antt =====
-- src/usb_transport.cpp: the search of a configuration for a pair of bulk endpoints.
pub mod Choice
pub mod Vendor
use gsusb_canfd.Prelude.{
  ℕ, zero, suc, Bool, true, false, not, ◌&&◌, ◌||◌, Option, none, some, List, [], ◌∷◌, bit_and,
  ◌==◌, if◌then◌else◌,
}
use gsusb_canfd.Usb.{Endpoint, AltSetting, ConfigDescriptor, Libusb}

-- What a pass over the endpoints has found: the first IN and the first OUT bulk endpoint.
pub record Pair : Type 0 where
  pub ep_in : Option ℕ
  pub ep_out : Option ℕ

-- The result of the search: *ep_in, *ep_out, *interface_number.
pub record Endpoints : Type 0 where
  pub ep_in : ℕ
  pub ep_out : ℕ
  pub interface_number : ℕ

abbrev pub first {ℓ} : {A : Type ℓ} → Option A → A → Option A
first none a = some a
first (some b) a = some b

abbrev pub to_endpoints : AltSetting → Pair → Option Endpoints
to_endpoints alt p = elim p.ep_in [
  | none ↦ none
  | some i ↦ elim p.ep_out [
    | none ↦ none
    | some o ↦ some (record { ep_in = i; ep_out = o; interface_number = alt.interface_number })
  ]
]

module _ (usb : Libusb) where
  abbrev pub is_bulk : Endpoint → Bool
  is_bulk ep = bit_and ep.attributes usb.transfer_type_mask == usb.transfer_type_bulk

  abbrev pub is_in : Endpoint → Bool
  is_in ep = bit_and ep.address usb.endpoint_dir_mask == usb.endpoint_in

  -- The loop over alt.endpoint.
  unfoldable pub scan_endpoints : List Endpoint → Pair → Pair
  scan_endpoints [] p = p
  scan_endpoints (ep ∷ eps) p = scan_endpoints eps (
      if not (is_bulk ep)
      then p
      else if is_in ep
      then record p { ep_in = first p.ep_in ep.address }
      else record p { ep_out = first p.ep_out ep.address })

  -- One alternate setting, in the pass that wants the vendor class or in the pass that does not.
  unfoldable pub try_setting : (vendor_only : Bool) → AltSetting → Option Endpoints
  unfolding scan_endpoints
  try_setting vendor_only alt =
      if vendor_only && not (alt.interface_class == 0xFF)
      then none
      else to_endpoints alt (scan_endpoints alt.endpoints (record { ep_in = none; ep_out = none }))

  unfoldable pub try_settings : Bool → List AltSetting → Option Endpoints
  unfolding try_setting
  try_settings vendor_only [] = none
  try_settings vendor_only (alt ∷ alts) = elim (try_setting vendor_only alt) [
    | some found ↦ some found
    | none ↦ try_settings vendor_only alts
  ]

  unfoldable pub try_interfaces : Bool → ConfigDescriptor → Option Endpoints
  unfolding try_settings
  try_interfaces vendor_only [] = none
  try_interfaces vendor_only (intf ∷ rest) = elim (try_settings vendor_only intf) [
    | some found ↦ some found
    | none ↦ try_interfaces vendor_only rest
  ]

  -- The two passes of findBulkInterface over a configuration.
  unfoldable pub choose_endpoints : ConfigDescriptor → Option Endpoints
  unfolding try_interfaces
  choose_endpoints config = elim (try_interfaces true config) [
    | some found ↦ some found
    | none ↦ try_interfaces false config
  ]

  -- hasVendorBulkInterface keeps only the flags, and stops at the first setting with both.
  unfoldable pub scan_flags : List Endpoint → (has_in has_out : Bool) → Bool × Bool
  scan_flags [] has_in has_out = (has_in, has_out)
  scan_flags (ep ∷ eps) has_in has_out =
      scan_flags eps (if is_bulk ep && is_in ep then true else has_in)
        (if is_bulk ep && not (is_in ep) then true else has_out)

  abbrev pub both : Bool × Bool → Bool
  both p = p.0 && p.1

  -- One alternate setting.
  unfoldable pub is_vendor_pair : AltSetting → Bool
  unfolding scan_flags
  is_vendor_pair alt =
      if not (alt.interface_class == 0xFF)
      then false
      else both (scan_flags alt.endpoints false false)

  unfoldable pub has_vendor_setting : List AltSetting → Bool
  unfolding is_vendor_pair
  has_vendor_setting [] = false
  has_vendor_setting (alt ∷ alts) = is_vendor_pair alt || has_vendor_setting alts

  unfoldable pub has_vendor_interface : ConfigDescriptor → Bool
  unfolding has_vendor_setting
  has_vendor_interface [] = false
  has_vendor_interface (intf ∷ rest) = has_vendor_setting intf || has_vendor_interface rest
