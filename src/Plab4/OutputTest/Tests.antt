-- ===== src/Plab4/OutputTest/Tests.antt =====
-- Runs of `output_test`, with lines that hold one number.
use osc_server.Base.{ℕ, ◌≡◌, refl, Bool, true, false, not, Option, none, some, [], ◌∷◌, ◌==◌, ◌↔◌}
use osc_server.Base.Text.{Text}
use osc_server.Plab4.OutputTest.{Scanned, bad_fields, output_test}
use osc_server.Plab4.OutputTest.Match.{AllMatch, SameLines, output_test-Match}

abbrev scan : Text → Option Scanned
scan [] = none
scan (n ∷ rest) = some (record { id = n; value = n; ts = n })

abbrev value_ne : ℕ → ℕ → Bool
value_ne a b = not (a == b)

output_test_extra :
    output_test scan scan value_ne true true ((1 ∷ []) ∷ (2 ∷ []) ∷ []) ((1 ∷ []) ∷ []) ≡ false
unfolding output_test bad_fields
output_test_extra = refl

output_test_wrong :
    output_test scan scan value_ne true true ((1 ∷ []) ∷ (2 ∷ []) ∷ []) ((1 ∷ []) ∷ (3 ∷ []) ∷ [])
    ≡ true
unfolding output_test bad_fields
output_test_wrong = refl

output_test-Match_example :
    ((output_test scan scan value_ne true true ((1 ∷ []) ∷ (2 ∷ []) ∷ []) ((1 ∷ []) ∷ []) ≡ false)
      ↔ (AllMatch scan scan value_ne ((1 ∷ []) ∷ (2 ∷ []) ∷ []) ((1 ∷ []) ∷ [])
          × SameLines scan scan value_ne ((1 ∷ []) ∷ (2 ∷ []) ∷ []) ((1 ∷ []) ∷ [])))
    × ((opened : Bool)
        → (output_test scan scan value_ne false opened ((1 ∷ []) ∷ (2 ∷ []) ∷ []) ((1 ∷ []) ∷ [])
            ≡ true)
          × (output_test scan scan value_ne opened false ((1 ∷ []) ∷ (2 ∷ []) ∷ []) ((1 ∷ []) ∷ [])
              ≡ true))
output_test-Match_example =
    output_test-Match scan scan value_ne ((1 ∷ []) ∷ (2 ∷ []) ∷ []) ((1 ∷ []) ∷ [])
