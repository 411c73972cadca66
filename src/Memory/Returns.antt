-- ===== src/Memory/Returns.antt =====
-- Total correctness of a run: it comes back with a value, and the value and the state satisfy `P`.
use osc_server.Base.{◌≡◌, refl, subst, Bool, true, false, if◌then◌else◌}
use osc_server.Memory.{Run, ok, fault, exited, blocked, out_of_fuel, Cmd, and_then}

pub data Returns {S A : Type 0} (P : A → S → Type 0) : Run S A → Type 0 where
  returns : {a : A} {s : S} → P a s → Returns P (ok a s)

-- `P` of the value and the state with which a run comes back.
abbrev Holds : {S A : Type 0} → (A → S → Type 0) → Run S A → Type 0
Holds P (ok a s) = P a s
Holds P fault = ⊥
Holds P exited = ⊥
Holds P blocked = ⊥
Holds P out_of_fuel = ⊥

module _ {S A : Type 0} {P : A → S → Type 0} where
  pub bind :
      {B : Type 0} {Q : B → S → Type 0} {r : Run S A} {k : A → Cmd S B}
      → Returns P r
      → ((a : A) (s : S) → P a s → Returns Q (k a s))
      → Returns Q (and_then r k)
  bind (returns p) next = next _ _ p

  pub mono :
      {Q : A → S → Type 0} {r : Run S A}
      → Returns P r
      → ((a : A) (s : S) → P a s → Q a s)
      → Returns Q r
  mono (returns p) weaken = returns (weaken _ _ p)

  pub to_ok : {r : Run S A} → Returns P r → (a : A) × (s : S) × (r ≡ ok a s) × P a s
  to_ok (returns p) = (_, _, refl, p)

  pub of_ok : {r : Run S A} {a : A} {s : S} → Returns P r → r ≡ ok a s → P a s
  of_ok (returns p) e = subst (Holds P) e p

  -- By the value of a test.
  pub by_test :
      (b : Bool) (m n : Cmd S A) (s : S)
      → (b ≡ true → Returns P (m s))
      → (b ≡ false → Returns P (n s))
      → Returns P ((if b then m else n) s)
  by_test true m n s p q = p refl
  by_test false m n s p q = q refl

  -- Whichever way a test goes.
  pub branch :
      (b : Bool) (m n : Cmd S A) (s : S)
      → Returns P (m s)
      → Returns P (n s)
      → Returns P ((if b then m else n) s)
  branch true m n s p q = p
  branch false m n s p q = q
