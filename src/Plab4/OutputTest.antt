-- ===== src/Plab4/OutputTest.antt =====
-- `output_test` and `clear_file` of the fourth lab's main.c. The lines are those that `fgets` gives;
-- what `sscanf` reads from a line of each file, and `!=` between two floats, are parameters.
pub mod Match
mod Tests
use osc_server.Base.{
  ℕ, Bool, true, false, not, ◌||◌, Option, none, some, List, [], ◌∷◌, ◌==◌, if◌then◌else◌,
}
use osc_server.Base.Int.{ℤ, pos, negsuc}
use osc_server.Base.Text.{Text}

-- The three variables that `sscanf` fills; `value` is the pattern of a float.
pub record Scanned : Type 0 where
  pub id : ℕ
  pub value : ℕ
  pub ts : ℕ

-- `fopen` with "w"; the file and what the call returns.
pub clear_file : (opened : Bool) → Text → Text × ℤ
clear_file opened file = if opened then ([], pos 0) else (file, negsuc 0)

-- `fgets` finds one more line.
abbrev pub more : List Text → Bool
more [] = false
more (line ∷ lines) = true

module _ (scan_out scan_test : Text → Option Scanned) (value_ne : ℕ → ℕ → Bool) where
  pub mismatch : Scanned → Scanned → Bool
  mismatch out expected =
      not (out.id == expected.id)
      || value_ne out.value expected.value
      || not (out.ts == expected.ts)

  pub bad_fields : Option Scanned → Option Scanned → Bool
  unfolding mismatch
  bad_fields none expected = true
  bad_fields (some out) none = true
  bad_fields (some out) (some expected) = mismatch out expected

  -- The loop, and then the search for extra lines: where the second `fgets` fails, the first one
  -- has already taken a line.
  pub compare_lines : (output test : List Text) → (has_error : Bool) → Bool
  compare_lines [] test has_error = if more test then true else has_error
  compare_lines (out ∷ output) [] has_error = if more output then true else has_error
  compare_lines (out ∷ output) (expected ∷ test) has_error =
      compare_lines output test
        (if bad_fields (scan_out out) (scan_test expected) then true else has_error)

  -- True reports an error.
  pub output_test : (out_opened test_opened : Bool) → (output test : List Text) → Bool
  unfolding compare_lines
  output_test out_opened test_opened output test =
      if not out_opened
      then true
      else if not test_opened
      then true
      else compare_lines output test false
