-- ===== src/Prelude/Store.antt =====
-- Copy loops over byte buffers, and what they leave at each index.
use Prim.Native.Nat.{ℕ, zero, suc, ◌+◌, ◌-◌, ◌≤◌}
use mathlib.Core.Path.{◌≡◌, refl}
use mathlib.Core.Bool.{◌&&◌}
use mathlib.Core.List.{List}
use native.Mathlib.Omega.{arith}
use gsusb_canfd.Prelude.Tests.{ltb, leb, if◌then◌else◌}
use gsusb_canfd.Prelude.Lists.{length, get_or, set, length-set, get_or-set}

-- The byte at an index; a read past the end gives 0.
abbrev pub byte_at : List ℕ → ℕ → ℕ
byte_at buffer i = get_or buffer i 0

-- for (k = i; k < i + left; ++k) dst[d + k] = src[s + k];
unfoldable pub copy_loop : (left i : ℕ) (src : List ℕ) (s : ℕ) (dst : List ℕ) (d : ℕ) → List ℕ
copy_loop zero i src s dst d = dst
copy_loop (suc left) i src s dst d =
    copy_loop left (suc i) src s (set dst (d + i) (byte_at src (s + i))) d

-- The same loop, which also stops when s + k reaches `limit`.
unfoldable pub copy_until :
    (left i limit : ℕ) (src : List ℕ) (s : ℕ) (dst : List ℕ) (d : ℕ) → List ℕ
copy_until zero i limit src s dst d = dst
copy_until (suc left) i limit src s dst d =
    let rest = copy_until left (suc i) limit src s (set dst (d + i) (byte_at src (s + i))) d in
    if ltb (s + i) limit then rest else dst

pub length-copy_loop :
    (left i : ℕ) (src : List ℕ) (s : ℕ) (dst : List ℕ) (d : ℕ)
    → length (copy_loop left i src s dst d) ≡ length dst
unfolding copy_loop
length-copy_loop zero i src s dst d = refl
length-copy_loop (suc left) i src s dst d = omega (
  arith,
  length-copy_loop left (suc i) src s (set dst (d + i) (byte_at src (s + i))) d,
  length-set dst (d + i) (byte_at src (s + i)),
)

pub length-copy_until :
    (left i limit : ℕ) (src : List ℕ) (s : ℕ) (dst : List ℕ) (d : ℕ)
    → length (copy_until left i limit src s dst d) ≡ length dst
unfolding copy_until
length-copy_until zero i limit src s dst d = refl
length-copy_until (suc left) i limit src s dst d = ground (
  arith,
  length-copy_until left (suc i) limit src s (set dst (d + i) (byte_at src (s + i))) d,
  length-set dst (d + i) (byte_at src (s + i)),
)

-- The copied range holds the source, and all else is unchanged.
pub byte_at-copy_loop :
    (left i : ℕ) (src : List ℕ) (s : ℕ) (dst : List ℕ) (d j : ℕ)
    → d + i + left ≤ length dst
    → byte_at (copy_loop left i src s dst d) j
      ≡ (if leb (d + i) j && ltb j (d + i + left) then byte_at src (s + j - d) else byte_at dst j)
unfolding copy_loop
byte_at-copy_loop zero i src s dst d j fits = ground arith
byte_at-copy_loop (suc left) i src s dst d j fits = ground (
  arith,
  byte_at-copy_loop left (suc i) src s (set dst (d + i) (byte_at src (s + i))) d j,
  length-set dst (d + i) (byte_at src (s + i)),
  get_or-set dst (d + i) j (byte_at src (s + i)) 0,
)

pub byte_at-copy_until :
    (left i limit : ℕ) (src : List ℕ) (s : ℕ) (dst : List ℕ) (d j : ℕ)
    → d + i + left ≤ length dst
    → byte_at (copy_until left i limit src s dst d) j ≡ (
        if leb (d + i) j && (ltb j (d + i + left) && ltb (s + j) (limit + d))
        then byte_at src (s + j - d)
        else byte_at dst j)
unfolding copy_until
byte_at-copy_until zero i limit src s dst d j fits = ground arith
byte_at-copy_until (suc left) i limit src s dst d j fits = ground (
  arith,
  byte_at-copy_until left (suc i) limit src s (set dst (d + i) (byte_at src (s + i))) d j,
  length-set dst (d + i) (byte_at src (s + i)),
  get_or-set dst (d + i) j (byte_at src (s + i)) 0,
)
