-- ===== src/Base/Bytes.antt =====
-- Numbers as bytes in memory, the lowest first.
use Prim.Native.Nat.{ℕ, zero, suc, ◌+◌, ◌*◌, ◌/◌, ◌%◌, ◌^◌, ◌<◌}
use mathlib.Core.Path.{◌≡◌, refl}
use mathlib.Core.List.{List, [], ◌∷◌}
use native.Mathlib.Omega.{arith}
use osc_server.Base.Lists.{length}

-- A number of `width` bytes.
abbrev pub to_bytes : (width n : ℕ) → List ℕ
to_bytes zero n = []
to_bytes (suc width) n = n % 256 ∷ to_bytes width (n / 256)

abbrev pub of_bytes : List ℕ → ℕ
of_bytes [] = 0
of_bytes (b ∷ bs) = b + 256 * of_bytes bs

pub of_bytes-to_bytes : (width n : ℕ) → n < 256 ^ width → of_bytes (to_bytes width n) ≡ n
of_bytes-to_bytes zero n h = omega arith
of_bytes-to_bytes (suc width) n h = omega (arith, of_bytes-to_bytes width (n / 256) (omega arith))

pub length-to_bytes : (width n : ℕ) → length (to_bytes width n) ≡ width
length-to_bytes zero n = refl
length-to_bytes (suc width) n = omega (arith, length-to_bytes width (n / 256))
