-- ===== src/Base/Tally.antt =====
-- Lists as bags: the sum of a weight over a list, and lists that agree on every weight.
use Prim.Native.Nat.{ℕ, ◌+◌, ◌<◌}
use mathlib.Core.Path.{◌≡◌, refl, subst, ap, sym}
use mathlib.Core.Logic.{ite, if_pos, if_neg}
use mathlib.Core.List.{List, [], ◌∷◌, ◌++◌, Perm, perm_middle}
use mathlib.Core.List.Perm
use native.Mathlib.Omega.{arith}

module _ {A : Type 0} where
  abbrev pub tally : (A → ℕ) → List A → ℕ
  tally f [] = 0
  tally f (x ∷ xs) = f x + tally f xs

  pub tally-append : (f : A → ℕ) (xs ys : List A) → tally f (xs ++ ys) ≡ tally f xs + tally f ys
  tally-append f [] ys = omega arith
  tally-append f (x ∷ xs) ys = omega (arith, tally-append f xs ys)

  module _ (dec : Discrete A) where
    abbrev same : A → A → ℕ
    same a b = ite (dec a b) 1 0

    same_self : (a : A) → same a a ≡ 1
    same_self a = if_pos (dec a a) refl 1 0

    found :
        (a : A) (ys : List A)
        → 0 < tally (same a) ys
        → (l : List A) × (r : List A) × (ys ≡ l ++ a ∷ r)
    found a [] h = absurd (omega arith)
    found a (y ∷ ys) h = elim (dec a y) [
      | yes e ↦ ([], ys, ap (λ z. z ∷ ys) (sym e))
      | no n ↦
          let (l, r, e) =
            found a ys (let z : same a y ≡ 0 = if_neg (dec a y) n 1 0 in omega arith) in
          (y ∷ l, r, ap (λ zs. y ∷ zs) e)
    ]

    -- Lists with the same sum of every weight hold the same items, as often.
    pub Perm_of_tally : (xs ys : List A) → ((f : A → ℕ) → tally f xs ≡ tally f ys) → Perm xs ys
    Perm_of_tally [] [] h = Perm.refl []
    Perm_of_tally [] (y ∷ ys) h = absurd (omega (arith, h (λ _. 1)))
    Perm_of_tally (x ∷ xs) ys h =
        let (l, r, e) = found x ys (omega (arith, h (same x), same_self x)) in
        subst (Perm (x ∷ xs)) (sym e) (
          Perm.trans
            (Perm.cons x (
              Perm_of_tally xs (l ++ r) (λ f.
                omega (arith, h f, ap (tally f) e, tally-append f l (x ∷ r), tally-append f l r))))
            (Perm.symm (perm_middle l r)))
