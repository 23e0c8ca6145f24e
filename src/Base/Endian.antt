-- ===== src/Base/Endian.antt =====
-- Numbers as bytes: `to_be_bytes`, `from_be_bytes`, and the little-endian `U16`, `U32`, `U64` of
-- zerocopy's byteorder module.
use mathlib.Core.List.{foldl, foldl-append}
use native.Mathlib.Nat.{pow-suc}
use link_mesh.Base.{
  ℕ, zero, suc, ◌+◌, ◌*◌, ◌/◌, ◌%◌, ◌^◌, ◌<◌, ◌≡◌, refl, ap, Bytes, [], ◌∷◌, ◌++◌, arith, length,
  length-append,
}

-- The low `w` bytes of `v`, the highest first.
abbrev pub be_bytes : ℕ → ℕ → Bytes
be_bytes zero v = []
be_bytes (suc w) v = be_bytes w (v / 256) ++ v % 256 ∷ []

abbrev pub from_be : Bytes → ℕ
from_be = foldl (λ acc b. acc * 256 + b) 0

-- The low `w` bytes of `v`, the lowest first.
abbrev pub le_bytes : ℕ → ℕ → Bytes
le_bytes zero v = []
le_bytes (suc w) v = v % 256 ∷ le_bytes w (v / 256)

abbrev pub from_le : Bytes → ℕ
from_le [] = 0
from_le (b ∷ bs) = b + 256 * from_le bs

pub length-be_bytes : (w v : ℕ) → length (be_bytes w v) ≡ w
length-be_bytes zero v = refl
length-be_bytes (suc w) v =
    omega (arith, length-append (be_bytes w (v / 256)) (v % 256 ∷ []), length-be_bytes w (v / 256))

pub length-le_bytes : (w v : ℕ) → length (le_bytes w v) ≡ w
length-le_bytes zero v = refl
length-le_bytes (suc w) v = ap suc (length-le_bytes w (v / 256))

pub from_le-le_bytes : (w v : ℕ) → v < 256 ^ w → from_le (le_bytes w v) ≡ v
from_le-le_bytes zero v h = omega arith
from_le-le_bytes (suc w) v h =
    omega (arith, pow-suc 256 w, from_le-le_bytes w (v / 256) (omega (arith, pow-suc 256 w)))

pub from_be-be_bytes : (w v : ℕ) → v < 256 ^ w → from_be (be_bytes w v) ≡ v
from_be-be_bytes zero v h = omega arith
from_be-be_bytes (suc w) v h =
    rw foldl-append
      (omega (arith, pow-suc 256 w, from_be-be_bytes w (v / 256) (omega (arith, pow-suc 256 w))))
