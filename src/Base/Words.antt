-- ===== src/Base/Words.antt =====
-- uint64 and uint32 arithmetic, and `binary.BigEndian` of the standard library.
use Prim.Native.Nat.{ℕ, zero, suc, ◌+◌, ◌-◌, ◌*◌, ◌/◌, ◌%◌, ◌^◌, ◌<◌}
use mathlib.Core.Path.{◌≡◌, refl}
use mathlib.Core.List.{List, [], ◌∷◌, ◌++◌}
use native.Mathlib.Omega.{arith}
use native.Mathlib.Nat.{pow-suc}
use distributed_systems_trai.Base.Lists.{length, length-append}

abbrev pub two64 : ℕ
two64 = 2 ^ 64

-- uint64 a + b and a - b.
abbrev pub add64 : ℕ → ℕ → ℕ
add64 a b = (a + b) % two64

abbrev pub sub64 : ℕ → ℕ → ℕ
sub64 a b = (a + two64 - b) % two64

-- The `w` bytes of `v`, the highest first (`PutUint32` and `PutUint64` at 4 and 8 bytes).
unfoldable pub put_uint : ℕ → ℕ → List ℕ
put_uint zero v = []
put_uint (suc w) v = put_uint w (v / 256) ++ (v % 256 ∷ [])

unfoldable pub uint_from : ℕ → List ℕ → ℕ
uint_from acc [] = acc
uint_from acc (b ∷ bs) = uint_from (acc * 256 + b) bs

-- The number that the bytes stand for (`Uint32`, `Uint64`).
unfoldable pub uint : List ℕ → ℕ
unfolding uint_from
uint bs = uint_from 0 bs

pub length-put_uint : (w v : ℕ) → length (put_uint w v) ≡ w
unfolding put_uint
length-put_uint zero v = refl
length-put_uint (suc w) v =
    omega (arith, length-append (put_uint w (v / 256)) (v % 256 ∷ []), length-put_uint w (v / 256))

uint_from-append :
    (acc : ℕ) (xs : List ℕ) (b : ℕ) → uint_from acc (xs ++ (b ∷ [])) ≡ uint_from acc xs * 256 + b
unfolding uint_from
uint_from-append acc [] b = refl
uint_from-append acc (x ∷ xs) b = uint_from-append (acc * 256 + x) xs b

-- Decoding what was encoded.
pub uint-put_uint : (w v : ℕ) → v < 256 ^ w → uint (put_uint w v) ≡ v
unfolding put_uint uint
uint-put_uint zero v h = omega arith
uint-put_uint (suc w) v h = omega (
  arith,
  uint_from-append 0 (put_uint w (v / 256)) (v % 256),
  uint-put_uint w (v / 256) (omega (arith, pow-suc 256 w)),
)
