-- ===== src/Main/Tests.antt =====
-- Runs of the main program, and its theorems at concrete arguments.
use osc_server.Base.{◌≡◌, refl, true, [], ◌∷◌}
use osc_server.Base.Int.{pos, negsuc}
use osc_server.Base.Text.{codes}
use osc_server.Base.Digits.{digits_value}
use osc_server.Main.{atoi, main}
use osc_server.Main.Arguments.{Valid, main-Valid}

main-Valid_example : Valid (record { port = 5678; max_conn = 3 })
unfolding main atoi digits_value
main-Valid_example =
    main-Valid true true (codes "5678" ∷ codes "3" ∷ []) (record { port = 5678; max_conn = 3 }) refl

-- 2 ^ 32 is 0 as an int.
wraps : atoi (codes "4294967296") ≡ pos 0
unfolding atoi digits_value
wraps = refl

negative : atoi (codes " -12x") ≡ negsuc 11
unfolding atoi digits_value
negative = refl
