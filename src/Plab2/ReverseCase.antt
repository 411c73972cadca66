-- ===== src/Plab2/ReverseCase.antt =====
-- plab_1-4_solutions/startcodeplab2/ex2/main.c: a message goes through a pipe to a child process,
-- which swaps the case of its letters and prints it. Characters are those of the C locale; a `write`
-- and a `read` of the whole message succeed.
use osc_server.Base.{
  ℕ, ◌+◌, ◌-◌, ◌≡◌, [], ◌∷◌, ◌++◌, Bool, false, ◌==◌, ◌&&◌, leb, take, ◌<◌, if◌then◌else◌,
}
use osc_server.Base.Text.{Text, codes, before_zero}

abbrev is_lower : ℕ → Bool
is_lower c = leb b'a' c && leb c b'z'

abbrev is_upper : ℕ → Bool
is_upper c = leb b'A' c && leb c b'Z'

-- `toupper` of a small letter, `tolower` of a capital.
unfoldable pub swapped : ℕ → ℕ
swapped c = if is_lower c then c - 32 else if is_upper c then c + 32 else c

-- The loop ends at the zero byte.
unfoldable pub reverse_case : Text → Text
reverse_case [] = []
reverse_case (c ∷ cs) = let rest = reverse_case cs in if c == 0 then c ∷ cs else swapped c ∷ rest

-- What the child prints; `strlen(message) + 1` bytes go through the pipe, and up to 1024 are read.
unfoldable pub child_output : Text → Text
child_output message =
    codes "Child Process Output: "
    ++ (before_zero (reverse_case (take 1024 (message ++ 0 ∷ []))) ++ codes "\n")

abbrev pub message : Text
message = codes "Hi There"

-- No byte is zero.
abbrev pub NoZero : Text → Type 0
NoZero [] = Unit {0}
NoZero (c ∷ cs) = ((c == 0) ≡ false) × NoZero cs

-- The letter `k` places behind A in one case, and in the other case; or a character that is no letter
-- and stays.
pub data Swaps (c d : ℕ) : Type 0 where
  capital : (k : ℕ) → k < 26 → c ≡ b'A' + k → d ≡ b'a' + k → Swaps c d
  small : (k : ℕ) → k < 26 → c ≡ b'a' + k → d ≡ b'A' + k → Swaps c d
  other : is_lower c ≡ false → is_upper c ≡ false → d ≡ c → Swaps c d

abbrev pub AllSwap : Text → Text → Type 0
AllSwap [] [] = Unit {0}
AllSwap [] (d ∷ ds) = ⊥
AllSwap (c ∷ cs) [] = ⊥
AllSwap (c ∷ cs) (d ∷ ds) = Swaps c d × AllSwap cs ds
