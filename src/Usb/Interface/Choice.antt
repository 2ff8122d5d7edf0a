-- ===== src/Usb/Interface/Choice.antt =====
-- What the endpoint search finds: a setting with a bulk pair, a vendor setting where one has a pair.
use gsusb_canfd.Prelude.{
  ℕ, ◌≡◌, refl, ◌⊎◌, inl, inr, Bool, true, false, not, ◌&&◌, Option, none, some, List, [], ◌∷◌,
  ◌++◌, arith, All, ◌==◌, if◌then◌else◌, Bool-cases,
}
use gsusb_canfd.Usb.{Endpoint, AltSetting, ConfigDescriptor, Libusb}
use gsusb_canfd.Usb.Interface.{
  Pair, Endpoints, first, is_bulk, is_in, scan_endpoints, to_endpoints, try_setting, try_settings,
  try_interfaces, choose_endpoints,
}

abbrev Any {ℓ} : {A : Type ℓ} → (A → Type 0) → List A → Type 0
Any P [] = ⊥
Any P (x ∷ xs) = P x ⊎ Any P xs

-- The settings of every interface, in order.
abbrev pub settings : ConfigDescriptor → List AltSetting
settings [] = []
settings (intf ∷ rest) = intf ++ settings rest

module _ (usb : Libusb) where
  -- The address of the first bulk endpoint of a direction.
  abbrev pub first_bulk : (want_in : Bool) → List Endpoint → Option ℕ
  first_bulk want_in [] = none
  first_bulk want_in (ep ∷ eps) =
      if is_bulk usb ep && (if want_in then is_in usb ep else not (is_in usb ep))
      then some ep.address
      else first_bulk want_in eps

  abbrev or_else : Option ℕ → Option ℕ → Option ℕ
  or_else none b = b
  or_else (some a) b = some a

  scan_endpoints-eq-first :
      (eps : List Endpoint) (p : Pair)
      → scan_endpoints usb eps p ≡ record {
        ep_in = or_else p.ep_in (first_bulk true eps);
        ep_out = or_else p.ep_out (first_bulk false eps);
      }
  unfolding scan_endpoints
  scan_endpoints-eq-first [] p = ground arith
  scan_endpoints-eq-first (ep ∷ eps) p = ground (
    arith,
    scan_endpoints-eq-first eps p,
    scan_endpoints-eq-first eps (record p { ep_in = first p.ep_in ep.address }),
    scan_endpoints-eq-first eps (record p { ep_out = first p.ep_out ep.address }),
  )

  abbrev pub is_vendor : AltSetting → Bool
  is_vendor alt = alt.interface_class == 0xFF

  -- `e` is the bulk pair of a setting.
  pub record IsPairOf (e : Endpoints) (alt : AltSetting) : Type 0 where
    pub ep_in : first_bulk true alt.endpoints ≡ some e.ep_in
    pub ep_out : first_bulk false alt.endpoints ≡ some e.ep_out
    pub interface_number : e.interface_number ≡ alt.interface_number

  -- A setting lacks a bulk endpoint of one direction.
  abbrev pub LacksPair : AltSetting → Type 0
  LacksPair alt = (first_bulk true alt.endpoints ≡ none) ⊎ (first_bulk false alt.endpoints ≡ none)

  -- What one try finds, and what a failure means.
  abbrev Tried : (vendor_only : Bool) → AltSetting → Option Endpoints → Type 0
  Tried v alt (some e) = IsPairOf e alt × ((v ≡ false) ⊎ (is_vendor alt ≡ true))
  Tried v alt none = ((v ≡ true) × (is_vendor alt ≡ false)) ⊎ LacksPair alt

  to_endpoints-Tried :
      (v : Bool) (alt : AltSetting) (i o : Option ℕ)
      → first_bulk true alt.endpoints ≡ i
      → first_bulk false alt.endpoints ≡ o
      → (v ≡ false) ⊎ (is_vendor alt ≡ true)
      → Tried v alt (to_endpoints alt (record { ep_in = i; ep_out = o }))
  to_endpoints-Tried v alt none o ei eo h = inr (inl ei)
  to_endpoints-Tried v alt (some i) none ei eo h = inr (inr eo)
  to_endpoints-Tried v alt (some i) (some o) ei eo h =
      (record { ep_in = ei; ep_out = eo; interface_number = refl }, h)

  -- In the form that the search computes with.
  scanned-Tried :
      (v : Bool) (alt : AltSetting)
      → (v ≡ false) ⊎ (is_vendor alt ≡ true)
      → Tried v alt (
          to_endpoints alt
            (scan_endpoints usb alt.endpoints (record { ep_in = none; ep_out = none })))
  scanned-Tried v alt h =
      rw (scan_endpoints-eq-first alt.endpoints (record { ep_in = none; ep_out = none }))
        (to_endpoints-Tried v alt _ _ refl refl h)

  try_setting-Tried : (v : Bool) (alt : AltSetting) → Tried v alt (try_setting usb v alt)
  unfolding try_setting
  try_setting-Tried false alt = scanned-Tried false alt (inl refl)
  try_setting-Tried true alt = elim (Bool-cases (is_vendor alt)) [
    | inl vendor ↦ rw vendor (scanned-Tried true alt (inr vendor))
    | inr other ↦ rw other (inl (refl, other))
  ]

  -- The same for a list of settings: the first that has what the pass wants, or none has.
  abbrev Found : Bool → List AltSetting → Option Endpoints → Type 0
  Found v alts (some e) = Any (λ alt. IsPairOf e alt × ((v ≡ false) ⊎ (is_vendor alt ≡ true))) alts
  Found v alts none = All (λ alt. Tried v alt none) alts

  Found-cons :
      (v : Bool) (alt : AltSetting) (alts : List AltSetting) (r rest : Option Endpoints)
      → Tried v alt r
      → Found v alts rest
      → Found v (alt ∷ alts) (elim r [ some e ↦ some e | none ↦ rest ])
  Found-cons v alt alts (some e) rest h hs = inl h
  Found-cons v alt alts none (some e) h hs = inr hs
  Found-cons v alt alts none none h hs = (h, hs)

  try_settings-Found : (v : Bool) (alts : List AltSetting) → Found v alts (try_settings usb v alts)
  unfolding try_settings
  try_settings-Found v [] = tt
  try_settings-Found v (alt ∷ alts) =
      Found-cons v alt alts (try_setting usb v alt) (try_settings usb v alts)
        (try_setting-Tried v alt) (try_settings-Found v alts)

  Found-append :
      (v : Bool) (xs ys : List AltSetting) (r rest : Option Endpoints)
      → Found v xs r
      → Found v ys rest
      → Found v (xs ++ ys) (elim r [ some e ↦ some e | none ↦ rest ])
  Found-append v [] ys (some e) rest h hs = absurd h
  Found-append v [] ys none rest h hs = hs
  Found-append v (x ∷ xs) ys (some e) rest (inl h) hs = inl h
  Found-append v (x ∷ xs) ys (some e) rest (inr h) hs =
      inr (Found-append v xs ys (some e) rest h hs)
  Found-append v (x ∷ xs) ys none (some e) h hs = inr (Found-append v xs ys none (some e) h.1 hs)
  Found-append v (x ∷ xs) ys none none h hs = (h.0, Found-append v xs ys none none h.1 hs)

  try_interfaces-Found :
      (v : Bool) (config : ConfigDescriptor)
      → Found v (settings config) (try_interfaces usb v config)
  unfolding try_interfaces
  try_interfaces-Found v [] = tt
  try_interfaces-Found v (intf ∷ rest) =
      Found-append v intf (settings rest) (try_settings usb v intf) (try_interfaces usb v rest)
        (try_settings-Found v intf) (try_interfaces-Found v rest)

  -- The outcome of the two passes. A pair found belongs to a vendor setting, or no vendor setting
  -- has one; where nothing is found, no setting has a pair.
  abbrev pub IsChoice : ConfigDescriptor → Option Endpoints → Type 0
  IsChoice config (some e) =
      Any (λ alt. IsPairOf e alt × (is_vendor alt ≡ true)) (settings config)
      ⊎ (Any (IsPairOf e) (settings config)
          × All (λ alt. (is_vendor alt ≡ false) ⊎ LacksPair alt) (settings config))
  IsChoice config none = All LacksPair (settings config)

  vendor_pass :
      (e : Endpoints) (alts : List AltSetting)
      → Found true alts (some e)
      → Any (λ alt. IsPairOf e alt × (is_vendor alt ≡ true)) alts
  vendor_pass e [] h = h
  vendor_pass e (alt ∷ alts) (inl (p, inl absurd_case)) = absurd (cc)
  vendor_pass e (alt ∷ alts) (inl (p, inr vendor)) = inl (p, vendor)
  vendor_pass e (alt ∷ alts) (inr h) = inr (vendor_pass e alts h)

  no_vendor :
      (alts : List AltSetting)
      → Found true alts none
      → All (λ alt. (is_vendor alt ≡ false) ⊎ LacksPair alt) alts
  no_vendor [] h = tt
  no_vendor (alt ∷ alts) (inl (_, other), hs) = (inl other, no_vendor alts hs)
  no_vendor (alt ∷ alts) (inr lacks, hs) = (inr lacks, no_vendor alts hs)

  Any-pass :
      (e : Endpoints) (alts : List AltSetting) → Found false alts (some e) → Any (IsPairOf e) alts
  Any-pass e [] h = h
  Any-pass e (alt ∷ alts) (inl (p, _)) = inl p
  Any-pass e (alt ∷ alts) (inr h) = inr (Any-pass e alts h)

  none_pass : (alts : List AltSetting) → Found false alts none → All LacksPair alts
  none_pass [] h = tt
  none_pass (alt ∷ alts) (inl (wrong, _), hs) = absurd (cc)
  none_pass (alt ∷ alts) (inr lacks, hs) = (lacks, none_pass alts hs)

  IsChoice-of_passes :
      (config : ConfigDescriptor) (a b : Option Endpoints)
      → Found true (settings config) a
      → Found false (settings config) b
      → IsChoice config (elim a [ some found ↦ some found | none ↦ b ])
  IsChoice-of_passes config (some e) b h hs = inl (vendor_pass e (settings config) h)
  IsChoice-of_passes config none (some e) h hs =
      inr (Any-pass e (settings config) hs, no_vendor (settings config) h)
  IsChoice-of_passes config none none h hs = none_pass (settings config) hs

  -- The search for endpoints finds a setting with a bulk pair wherever one exists, and a vendor
  -- setting wherever one has a pair; the endpoints are the setting's first of each
  -- direction.
  pub choose_endpoints-IsChoice :
      (config : ConfigDescriptor) → IsChoice config (choose_endpoints usb config)
  unfolding choose_endpoints
  choose_endpoints-IsChoice config =
      IsChoice-of_passes config (try_interfaces usb true config) (try_interfaces usb false config)
        (try_interfaces-Found true config) (try_interfaces-Found false config)
