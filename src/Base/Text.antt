-- ===== src/Base/Text.antt =====
-- Texts as their bytes, and the decimal form that `printf` gives a number.
use Prim.Native.Nat.{ℕ, zero, suc, ◌+◌, ◌/◌, ◌%◌, ◌<◌}
use Prim.Native.Char.{code}
use Prim.Native.String.{String}
use mathlib.Core.Path.{◌≡◌, refl}
use mathlib.Core.Bool.{Bool, true, false, ◌&&◌}
use mathlib.Core.List.{List, [], ◌∷◌, ◌++◌}
use mathlib.Core.Logic.{inl, inr}
use native.Mathlib.Omega.{arith}
use osc_server.Base.Tests.{ltb, ltb→lt, Bool-cases, ◌==◌, if◌then◌else◌}

abbrev pub Text : Type 0
Text = List ℕ

abbrev pub codes : String → Text
codes String.[] = []
codes (String.◌∷◌ c s) = code c ∷ codes s

abbrev pub digits : (fuel n : ℕ) → Text
digits zero n = []
digits (suc fuel) n =
    let rest = digits fuel (n / 10) in
    if ltb n 10 then (b'0' + n) ∷ [] else rest ++ (b'0' + n % 10) ∷ []

-- `%d` of a number that is not negative, `%hu`; a number has no more digits than it counts, plus one.
unfoldable pub decimal : ℕ → Text
decimal n = digits (suc n) n

-- `strcmp(x, y) == 0`
abbrev pub same_text : Text → Text → Bool
same_text [] [] = true
same_text [] (y ∷ ys) = false
same_text (x ∷ xs) [] = false
same_text (x ∷ xs) (y ∷ ys) = (x == y) && same_text xs ys

-- The bytes before a zero byte, which `%s` prints.
abbrev pub before_zero : Text → Text
before_zero [] = []
before_zero (x ∷ xs) = if x == 0 then [] else x ∷ before_zero xs

abbrev pub flatten : List Text → Text
flatten [] = []
flatten (x ∷ xs) = x ++ flatten xs

digits-first :
    (fuel n : ℕ)
    → n < fuel
    → (d : ℕ) × (rest : Text) × (digits fuel n ≡ d ∷ rest) × (47 < d) × (d < 58)
digits-first zero n h = absurd (omega arith)
digits-first (suc fuel) n h = elim (Bool-cases (ltb n 10)) [
  | inl small ↦
      let below = ltb→lt n 10 small in
      rw small (b'0' + n, [], refl, omega arith, omega (arith, below))
  | inr large ↦
      let (d, rest, e, low, high) = digits-first fuel (n / 10) (ground arith) in
      rw (large, e) (d, rest ++ (b'0' + n % 10) ∷ [], refl, low, high)
]

-- A number starts with a digit.
pub decimal-first : (n : ℕ) → (d : ℕ) × (rest : Text) × (decimal n ≡ d ∷ rest) × (47 < d) × (d < 58)
unfolding decimal
decimal-first n = digits-first (suc n) n (omega arith)
