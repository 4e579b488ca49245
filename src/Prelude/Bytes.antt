-- ===== src/Prelude/Bytes.antt =====
-- Big-endian numbers, as `to_be_bytes` and `from_be_bytes` of the standard library.
use Prim.Native.Nat.{ℕ, zero, suc, ◌+◌, ◌*◌, ◌/◌, ◌%◌, ◌^◌, ◌<◌}
use mathlib.Core.Path.{◌≡◌, refl}
use mathlib.Core.List.{List, [], ◌∷◌, ◌++◌}
use native.Mathlib.Nat.{pow-suc}
use native.Mathlib.Omega.{arith}
use rathole_ng.Prelude.Lists.{length, length-append}

-- `w` bytes, the most significant first.
unfoldable pub to_be_bytes : ℕ → ℕ → List ℕ
to_be_bytes zero v = []
to_be_bytes (suc w) v = to_be_bytes w (v / 256) ++ (v % 256) ∷ []

unfoldable pub be_from : ℕ → List ℕ → ℕ
be_from acc [] = acc
be_from acc (b ∷ bs) = be_from (acc * 256 + b) bs

unfoldable pub from_be_bytes : List ℕ → ℕ
from_be_bytes bs = be_from 0 bs

abbrev pub AreBytes : List ℕ → Type 0
AreBytes [] = Unit
AreBytes (b ∷ bs) = (b < 256) × AreBytes bs

be_from-append :
    (acc : ℕ) (bs : List ℕ) (b : ℕ) → be_from acc (bs ++ b ∷ []) ≡ be_from acc bs * 256 + b
unfolding be_from
be_from-append acc [] b = refl
be_from-append acc (c ∷ bs) b = be_from-append (acc * 256 + c) bs b

pub from_be_bytes-to_be_bytes : (w v : ℕ) → v < 256 ^ w → from_be_bytes (to_be_bytes w v) ≡ v
unfolding from_be_bytes to_be_bytes be_from
from_be_bytes-to_be_bytes zero v h = omega arith
from_be_bytes-to_be_bytes (suc w) v h = omega (
  arith,
  pow-suc 256 w,
  be_from-append 0 (to_be_bytes w (v / 256)) (v % 256),
  from_be_bytes-to_be_bytes w (v / 256),
)

pub length-to_be_bytes : (w v : ℕ) → length (to_be_bytes w v) ≡ w
unfolding to_be_bytes
length-to_be_bytes zero v = refl
length-to_be_bytes (suc w) v = omega (
  arith,
  length-append (to_be_bytes w (v / 256)) ((v % 256) ∷ []),
  length-to_be_bytes w (v / 256),
)
