-- ===== src/Main/Arguments.antt =====
-- Which arguments let the server start.
use osc_server.Base.{Option, none, some, some_injective, ◌||◌}
use osc_server.Base.{
  ℕ, ◌^◌, ◌-◌, ◌%◌, inl, inr, Bool-cases, ◌<◌, ◌≤◌, ◌≡◌, refl, Bool, true, false, List, [], ◌∷◌,
  arith, ltb, ◌==◌, if◌then◌else◌,
}
use osc_server.Base.Int.{ℤ, pos, negsuc}
use osc_server.Base.Text.{Text}
use osc_server.Base.Digits.{is_space}
use osc_server.Config.{ConnmgrArgs}
use osc_server.Main.{
  Action, connmgr_started, Status, exit_failure, to_int, signed_value, atoi, main, parsed, checked,
  run_threads,
}

-- A number in the range of an int.
abbrev IsInt : ℤ → Type 0
IsInt (pos n) = n < 2 ^ 31
IsInt (negsuc n) = n < 2 ^ 31

low-IsInt :
    (low : ℕ)
    → low < 2 ^ 32
    → IsInt (if ltb low (2 ^ 31) then pos low else negsuc (2 ^ 32 - 1 - low))
      × IsInt (if ltb low (2 ^ 31) then negsuc low else pos (2 ^ 32 - 1 - low))
low-IsInt low small = elim (Bool-cases (ltb low (2 ^ 31))) [
  | inl e ↦ rw e (ground arith, ground arith)
  | inr e ↦ rw e (ground arith, ground arith)
]

to_int-IsInt : (n : ℤ) → IsInt (to_int n)
to_int-IsInt (pos n) =
    (low-IsInt ((if ltb n (2 ^ 63) then n else 2 ^ 63 - 1) % 2 ^ 32) (omega arith)).0
to_int-IsInt (negsuc n) =
    (low-IsInt ((if ltb n (2 ^ 63) then n else 2 ^ 63 - 1) % 2 ^ 32) (omega arith)).1

atoi-IsInt : (t : Text) → IsInt (atoi t)
unfolding atoi
atoi-IsInt [] = omega arith
atoi-IsInt (c ∷ cs) = elim (Bool-cases (is_space c)) [
  | inl e ↦ rw e (atoi-IsInt cs)
  | inr e ↦ rw e (to_int-IsInt (signed_value (c ∷ cs)))
]

-- The arguments with which the connection manager starts, if it does.
abbrev pub started : List Action → Option ConnmgrArgs
started [] = none
started (connmgr_started args ∷ actions) = some args
started (_ ∷ actions) = started actions

-- The bounds that the other parts rely on.
abbrev pub Valid : ConnmgrArgs → Type 0
Valid args = (0 < args.port) × (args.port ≤ 65535) × (0 < args.max_conn) × (args.max_conn < 2 ^ 31)

abbrev refused : Status × List Action
refused = (exit_failure, [])

-- What `checked` does, by the results of its two tests.
tested-Valid :
    (allocated created no_port no_conn : Bool) (p m : ℕ) (args : ConnmgrArgs)
    → ((p == 0) || ltb 65535 p) ≡ no_port
    → (m == 0) ≡ no_conn
    → m < 2 ^ 31
    → started
        (if no_port
          then (exit_failure, [])
          else if no_conn
          then (exit_failure, [])
          else run_threads allocated created (pos p) (pos m)).1
      ≡ some args
    → Valid args
unfolding run_threads
tested-Valid allocated created true no_conn p m args x y small e = cc
tested-Valid allocated created false true p m args x y small e = cc
tested-Valid false created false false p m args x y small e = cc
tested-Valid true false false false p m args x y small e = cc
tested-Valid true true false false p m args x y small e =
    let same : record { port = p; max_conn = m } ≡ args = some_injective e in
    rw (← same) (ground arith, ground arith, ground arith, small)

checked-Valid :
    (allocated created : Bool) (port max_conn : ℤ) (args : ConnmgrArgs)
    → IsInt max_conn
    → started (checked allocated created port max_conn).1 ≡ some args
    → Valid args
unfolding checked
checked-Valid allocated created (negsuc p) max_conn args small e = cc
checked-Valid allocated created (pos p) (negsuc m) args small e =
    absurd (none_started ((p == 0) || ltb 65535 p) e)
  where
    none_started : (b : Bool) → started (if b then refused else refused).1 ≡ some args → ⊥
    none_started true x = cc
    none_started false x = cc
checked-Valid allocated created (pos p) (pos m) args small e =
    tested-Valid allocated created ((p == 0) || ltb 65535 p) (m == 0) p m args refl refl small e

-- Whatever the arguments are, and whatever fails, the connection manager only ever starts with a port
-- from 1 to 65535 and a limit from one connection to the largest int.
pub main-Valid :
    (allocated created : Bool) (arguments : List Text) (args : ConnmgrArgs)
    → started (main allocated created arguments).1 ≡ some args
    → Valid args
unfolding main parsed
main-Valid allocated created [] args e = cc
main-Valid allocated created (port ∷ []) args e = cc
main-Valid allocated created (port ∷ max_conn ∷ []) args e =
    checked-Valid allocated created (atoi port) (atoi max_conn) args (atoi-IsInt max_conn) e
main-Valid allocated created (port ∷ max_conn ∷ extra ∷ more) args e = cc
