-- ===== src/Base/Digits.antt =====
-- The digits that `atoi` and `scanf` read, and that they read back what `printf` prints.
use Prim.Native.Nat.{ℕ, zero, suc, ◌+◌, ◌-◌, ◌*◌, ◌/◌, ◌%◌, ◌<◌}
use mathlib.Core.Path.{◌≡◌, refl, ◌∙◌, ap}
use mathlib.Core.Logic.{inl, inr}
use mathlib.Core.Bool.{Bool, true, false, ◌&&◌, ◌||◌}
use mathlib.Core.List.{[], ◌∷◌, ◌++◌}
use native.Mathlib.Omega.{arith}
use osc_server.Base.Tests.{ltb, leb, ltb→lt, Bool-cases, ◌==◌, if◌then◌else◌}
use osc_server.Base.Text.{Text, decimal, digits}

abbrev pub is_digit : ℕ → Bool
is_digit c = leb b'0' c && leb c b'9'

abbrev pub is_space : ℕ → Bool
is_space c = (c == 32) || (leb 9 c && leb c 13)

-- The digits at the front of a text, after the number `n`.
unfoldable pub digits_value : (n : ℕ) → Text → ℕ
digits_value n [] = n
digits_value n (c ∷ cs) =
    let rest = digits_value (n * 10 + (c - b'0')) cs in if is_digit c then rest else n

-- The same, with what follows the digits.
unfoldable pub scan_digits : (n : ℕ) → Text → ℕ × Text
scan_digits n [] = (n, [])
scan_digits n (c ∷ cs) =
    let rest = scan_digits (n * 10 + (c - b'0')) cs in if is_digit c then rest else (n, c ∷ cs)

abbrev pub AllDigits : Text → Type 0
AllDigits [] = Unit {0}
AllDigits (c ∷ cs) = (is_digit c ≡ true) × AllDigits cs

AllDigits-append : (xs : Text) (c : ℕ) → AllDigits xs → is_digit c ≡ true → AllDigits (xs ++ c ∷ [])
AllDigits-append [] c all one = (one, tt)
AllDigits-append (x ∷ xs) c (first, all) one = (first, AllDigits-append xs c all one)

digits_value-append :
    (xs : Text) (n c : ℕ)
    → AllDigits xs
    → is_digit c ≡ true
    → digits_value n (xs ++ c ∷ []) ≡ digits_value n xs * 10 + (c - b'0')
unfolding digits_value
digits_value-append [] n c all one = rw one refl
digits_value-append (x ∷ xs) n c (first, all) one =
    rw first (digits_value-append xs (n * 10 + (x - b'0')) c all one)

pub digits-value :
    (fuel n : ℕ) → n < fuel → AllDigits (digits fuel n) × (digits_value 0 (digits fuel n) ≡ n)
unfolding digits_value
digits-value zero n h = absurd (omega arith)
digits-value (suc fuel) n h = elim (Bool-cases (ltb n 10)) [
  | inl small ↦
      let below = ltb→lt n 10 small in
      let one : is_digit (b'0' + n) ≡ true = ground arith in
      rw (small, one) ((refl, tt), omega (arith, below))
  | inr large ↦
      let (all, value) = digits-value fuel (n / 10) (ground arith) in
      let one : is_digit (b'0' + n % 10) ≡ true = ground arith in
      rw large (
        AllDigits-append (digits fuel (n / 10)) (b'0' + n % 10) all one,
        digits_value-append (digits fuel (n / 10)) 0 (b'0' + n % 10) all one ∙ omega (arith, value),
      )
]

scan_digits-append :
    (xs : Text) (n c : ℕ) (rest : Text)
    → AllDigits xs
    → is_digit c ≡ false
    → scan_digits n (xs ++ c ∷ rest) ≡ (digits_value n xs, c ∷ rest)
unfolding scan_digits digits_value
scan_digits-append [] n c rest all other = rw other refl
scan_digits-append (x ∷ xs) n c rest (one, all) other =
    rw one (scan_digits-append xs (n * 10 + (x - b'0')) c rest all other)

-- What `%hu` prints before another byte is read back.
pub scan_digits-decimal :
    (n c : ℕ) (rest : Text)
    → is_digit c ≡ false
    → scan_digits 0 (decimal n ++ c ∷ rest) ≡ (n, c ∷ rest)
unfolding decimal
scan_digits-decimal n c rest other =
    let (all, value) = digits-value (suc n) n (omega arith) in
    scan_digits-append (digits (suc n) n) 0 c rest all other ∙ ap (λ v. (v, c ∷ rest)) value
