-- ===== src/Usb/Interface/Vendor.antt =====
-- The discovery test `has_vendor_interface` agrees with the first pass of the endpoint search.
use gsusb_canfd.Prelude.{
  ℕ, ◌≡◌, refl, ap, ◌∙◌, inl, inr, Bool, true, false, ◌&&◌, Option, none, some, List, [], ◌∷◌,
  arith, ◌↔◌, Option-cases,
}
use gsusb_canfd.Usb.{Endpoint, AltSetting, ConfigDescriptor, Libusb}
use gsusb_canfd.Usb.Interface.{
  Pair, Endpoints, first, to_endpoints, scan_endpoints, try_setting, try_settings, try_interfaces,
  choose_endpoints, scan_flags, is_vendor_pair, has_vendor_setting, has_vendor_interface,
}

abbrev is_some {ℓ} : {A : Type ℓ} → Option A → Bool
is_some none = false
is_some (some a) = true

module _ (usb : Libusb) where
  abbrev flags_of : Pair → Bool × Bool
  flags_of p = (is_some p.ep_in, is_some p.ep_out)

  scan_flags-scan_endpoints :
      (eps : List Endpoint) (p : Pair)
      → scan_flags usb eps (is_some p.ep_in) (is_some p.ep_out)
        ≡ flags_of (scan_endpoints usb eps p)
  unfolding scan_flags scan_endpoints
  scan_flags-scan_endpoints [] p = refl
  scan_flags-scan_endpoints (ep ∷ eps) p = ground (
    arith,
    scan_flags-scan_endpoints eps p,
    scan_flags-scan_endpoints eps (record p { ep_in = first p.ep_in ep.address }),
    scan_flags-scan_endpoints eps (record p { ep_out = first p.ep_out ep.address }),
  )

  to_endpoints_flags :
      (alt : AltSetting) (i o : Option ℕ)
      → is_some (to_endpoints alt (record { ep_in = i; ep_out = o })) ≡ (is_some i && is_some o)
  to_endpoints_flags alt none o = refl
  to_endpoints_flags alt (some i) none = refl
  to_endpoints_flags alt (some i) (some o) = refl

  is_vendor_pair-eq :
      (alt : AltSetting) → is_vendor_pair usb alt ≡ is_some (try_setting usb true alt)
  unfolding is_vendor_pair try_setting
  is_vendor_pair-eq alt =
      let blank : Pair = record { ep_in = none; ep_out = none } in
      let p = scan_endpoints usb alt.endpoints blank in
      ground (
        arith,
        scan_flags-scan_endpoints alt.endpoints blank,
        to_endpoints_flags alt p.ep_in p.ep_out,
      )

  has_vendor_setting-eq :
      (alts : List AltSetting) → has_vendor_setting usb alts ≡ is_some (try_settings usb true alts)
  unfolding has_vendor_setting try_settings
  has_vendor_setting-eq [] = refl
  has_vendor_setting-eq (alt ∷ alts) =
      ground (arith, is_vendor_pair-eq alt, has_vendor_setting-eq alts)

  has_vendor_interface-eq :
      (config : ConfigDescriptor)
      → has_vendor_interface usb config ≡ is_some (try_interfaces usb true config)
  unfolding has_vendor_interface try_interfaces
  has_vendor_interface-eq [] = refl
  has_vendor_interface-eq (intf ∷ rest) =
      ground (arith, has_vendor_setting-eq intf, has_vendor_interface-eq rest)

  -- A configuration passes the discovery test exactly when the first pass of the search for
  -- endpoints succeeds in it with endpoints that are then the ones chosen.
  pub has_vendor_interface_iff :
      (config : ConfigDescriptor)
      → (has_vendor_interface usb config ≡ true) ↔ (
          (e : Endpoints) × (try_interfaces usb true config ≡ some e)
          × (choose_endpoints usb config ≡ some e))
  unfolding choose_endpoints
  has_vendor_interface_iff config = (found, λ (e, p, q). has_vendor_interface-eq config ∙ rw p)
    where
      found :
          has_vendor_interface usb config ≡ true
          → (e : Endpoints) × (try_interfaces usb true config ≡ some e)
            × (choose_endpoints usb config ≡ some e)
      found h = elim (Option-cases (try_interfaces usb true config)) [
        | inl lost ↦
            absurd (cc (h, has_vendor_interface-eq config, ap (is_some {A = Endpoints}) lost))
        | inr (e, p) ↦ (e, p, rw (p, choose_endpoints))
      ]
