-- ===== src/Timing/Bytes.antt =====
-- `to_bytes`: the block that the bit timing requests carry.
use gsusb_canfd.Prelude.{ℕ, ◌+◌, ◌^◌, ◌≤◌, ◌<◌, ◌≡◌, refl, ◌∙◌, inl, List, arith, length, replicate}
use gsusb_canfd.Wire.{
  put_u32_le, get_u32_le, length-put_u32_le, get-put_u32_le, get-put_u32_le_apart,
}
use gsusb_canfd.Timing.{BitTiming, to_bytes}

-- Every field is a `uint32_t` value.
pub record IsWords (t : BitTiming) : Type 0 where
  pub prop_seg : t.prop_seg < 2 ^ 32
  pub phase_seg1 : t.phase_seg1 < 2 ^ 32
  pub phase_seg2 : t.phase_seg2 < 2 ^ 32
  pub sjw : t.sjw < 2 ^ 32
  pub brp : t.brp < 2 ^ 32

-- The device reads back the five words in the order of its protocol.
pub record IsTimingBlock (t : BitTiming) (out : List ℕ) : Type 0 where
  pub size : length out ≡ 20
  pub prop_seg : get_u32_le out 0 ≡ t.prop_seg
  pub phase_seg1 : get_u32_le out 4 ≡ t.phase_seg1
  pub phase_seg2 : get_u32_le out 8 ≡ t.phase_seg2
  pub sjw : get_u32_le out 12 ≡ t.sjw
  pub brp : get_u32_le out 16 ≡ t.brp

-- Storing one more word keeps the words below it.
word_after :
    (out : List ℕ) (offset value other got : ℕ)
    → length out ≡ 20
    → offset + 4 ≤ 20
    → other + 4 ≤ offset
    → get_u32_le out other ≡ got
    → get_u32_le (put_u32_le out offset value) other ≡ got
word_after out offset value other got size fits below e =
    get-put_u32_le_apart out offset value other (omega arith) (inl below) ∙ e

word_here :
    (out : List ℕ) (offset value : ℕ)
    → length out ≡ 20
    → offset + 4 ≤ 20
    → value < 2 ^ 32
    → get_u32_le (put_u32_le out offset value) offset ≡ value
word_here out offset value size fits small = get-put_u32_le out offset value (omega arith) small

-- The block of a timing with 32-bit fields is 20 bytes long and its words are the five fields.
pub to_bytes-IsTimingBlock : (t : BitTiming) → IsWords t → IsTimingBlock t (to_bytes t)
unfolding to_bytes
to_bytes-IsTimingBlock t w =
    let a = put_u32_le (replicate 20 0) 0 t.prop_seg in
    let b = put_u32_le a 4 t.phase_seg1 in
    let c = put_u32_le b 8 t.phase_seg2 in
    let d = put_u32_le c 12 t.sjw in
    let la : length a ≡ 20 = length-put_u32_le (replicate 20 0) 0 t.prop_seg in
    let lb : length b ≡ 20 = length-put_u32_le a 4 t.phase_seg1 ∙ la in
    let lc : length c ≡ 20 = length-put_u32_le b 8 t.phase_seg2 ∙ lb in
    let ld : length d ≡ 20 = length-put_u32_le c 12 t.sjw ∙ lc in
    let pa = word_here (replicate 20 0) 0 t.prop_seg refl (omega arith) w.prop_seg in
    let pb = word_here a 4 t.phase_seg1 la (omega arith) w.phase_seg1 in
    let pc = word_here b 8 t.phase_seg2 lb (omega arith) w.phase_seg2 in
    let pd = word_here c 12 t.sjw lc (omega arith) w.sjw in
    let over_d = λ (other got : ℕ) (h : other + 4 ≤ 16) (e : get_u32_le d other ≡ got).
      word_after d 16 t.brp other got ld (omega arith) h e in
    let over_c = λ (other got : ℕ) (h : other + 4 ≤ 12) (e : get_u32_le c other ≡ got).
      over_d other got (omega arith) (word_after c 12 t.sjw other got lc (omega arith) h e) in
    let over_b = λ (other got : ℕ) (h : other + 4 ≤ 8) (e : get_u32_le b other ≡ got).
      over_c other got (omega arith) (word_after b 8 t.phase_seg2 other got lb (omega arith) h e) in
    record {
      size = length-put_u32_le d 16 t.brp ∙ ld;
      prop_seg =
          over_b 0 t.prop_seg (omega arith)
            (word_after a 4 t.phase_seg1 0 t.prop_seg la (omega arith) (omega arith) pa);
      phase_seg1 = over_b 4 t.phase_seg1 (omega arith) pb;
      phase_seg2 = over_c 8 t.phase_seg2 (omega arith) pc;
      sjw = over_d 12 t.sjw (omega arith) pd;
      brp = word_here d 16 t.brp ld (omega arith) w.brp;
    }
