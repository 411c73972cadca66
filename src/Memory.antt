-- ===== src/Memory.antt =====
-- C's heap and the ways in which a call ends. A struct type has a store of its own, from addresses
-- to structs; `malloc` is the address that it returns, an argument of the command that calls it.
pub mod Returns
use osc_server.Base.{ℕ, Option, none, some, Bool, true, false, ◌≡◌, arith, ◌==◌, if◌then◌else◌}

abbrev pub Ptr : Type 0
Ptr = ℕ

abbrev pub null : Ptr
null = 0

abbrev pub Store : Type 0 → Type 0
Store A = Ptr → Option A

unfoldable pub write : {A : Type 0} → Store A → Ptr → Option A → Store A
write h p c a = if a == p then c else h a

-- How a call ends: with a value, by undefined behaviour, by `exit` or `abort`, not before another
-- thread acts, or not within the fuel of the model.
pub data Run (S : Type 0) (A : Type 0) : Type 0 where
  ok : A → S → Run S A
  fault : Run S A
  exited : Run S A
  blocked : Run S A
  out_of_fuel : Run S A

abbrev pub Cmd : Type 0 → Type 0 → Type 0
Cmd S A = S → Run S A

module _ {S A : Type 0} where
  abbrev pub pure : A → Cmd S A
  pure a s = ok a s

  abbrev pub undefined : Cmd S A
  undefined s = fault

  abbrev pub wait : Cmd S A
  wait s = blocked

module _ {S A B : Type 0} where
  abbrev pub and_then : Run S A → (A → Cmd S B) → Run S B
  and_then (ok a s) k = k a s
  and_then fault k = fault
  and_then exited k = exited
  and_then blocked k = blocked
  and_then out_of_fuel k = out_of_fuel

  infixl 5 ◌>>=◌ ◌>>◌
  abbrev pub ◌>>=◌ : Cmd S A → (A → Cmd S B) → Cmd S B
  m >>= k = λ s. and_then (m s) k

  abbrev pub ◌>>◌ : Cmd S A → Cmd S B → Cmd S B
  m >> n = m >>= λ _. n

-- `ERROR_HANDLER(condition, …)` and `assert`: leave the program if the condition holds.
abbrev pub exit_if : {S : Type 0} → Bool → Cmd S (Unit {0})
exit_if true s = exited
exit_if false s = ok tt s

pub write_self : {A : Type 0} (h : Store A) (p : Ptr) (c : Option A) → write h p c p ≡ c
unfolding write
write_self h p c = let e : (p == p) ≡ true = ground arith in rw e

pub write-other :
    {A : Type 0} (h : Store A) (p a : Ptr) (c : Option A) → (a == p) ≡ false → write h p c a ≡ h a
unfolding write
write-other h p a c e = rw e
