-- ===== src/Base/Lists.antt =====
-- Lists measured and indexed by native numbers, under the library's names.
use Prim.Native.Nat.{ℕ, zero, suc, ◌+◌, ◌-◌, ◌≤◌, ◌<◌}
use mathlib.Core.Path.{◌≡◌, refl, ap}
use mathlib.Core.List.{List, [], ◌∷◌, ◌++◌}
use mathlib.Core.Option.{Option, none, some}
use native.Mathlib.Omega.{arith}

module _ {ℓ} {A : Type ℓ} where
  abbrev pub length : List A → ℕ
  length [] = 0
  length (x ∷ xs) = suc (length xs)

  abbrev pub get_elem? : List A → ℕ → Option A
  get_elem? [] i = none
  get_elem? (x ∷ xs) zero = some x
  get_elem? (x ∷ xs) (suc i) = get_elem? xs i

  abbrev pub take : ℕ → List A → List A
  take zero xs = []
  take (suc n) [] = []
  take (suc n) (x ∷ xs) = x ∷ take n xs

  abbrev pub drop : ℕ → List A → List A
  drop zero xs = xs
  drop (suc n) [] = []
  drop (suc n) (x ∷ xs) = drop n xs

  abbrev pub replicate : ℕ → A → List A
  replicate zero a = []
  replicate (suc n) a = a ∷ replicate n a

  pub length-take : (n : ℕ) (xs : List A) → n ≤ length xs → length (take n xs) ≡ n
  length-take zero xs h = refl
  length-take (suc n) [] h = absurd (omega arith)
  length-take (suc n) (x ∷ xs) h = omega (arith, length-take n xs (omega arith))

  pub take-append-drop : (n : ℕ) (xs : List A) → take n xs ++ drop n xs ≡ xs
  take-append-drop zero xs = refl
  take-append-drop (suc n) [] = refl
  take-append-drop (suc n) (x ∷ xs) = ap (◌∷◌ x) (take-append-drop n xs)

  pub take-append_le : (n : ℕ) (xs ys : List A) → n ≤ length xs → take n (xs ++ ys) ≡ take n xs
  take-append_le zero xs ys h = refl
  take-append_le (suc n) [] ys h = absurd (omega arith)
  take-append_le (suc n) (x ∷ xs) ys h = ap (◌∷◌ x) (take-append_le n xs ys (omega arith))

  pub take-all : (xs : List A) → take (length xs) xs ≡ xs
  take-all [] = refl
  take-all (x ∷ xs) = ap (◌∷◌ x) (take-all xs)

  pub take-suc :
      (n : ℕ) (xs : List A) (x : A)
      → get_elem? xs n ≡ some x
      → take (suc n) xs ≡ take n xs ++ x ∷ []
  take-suc zero [] x e = cc
  take-suc zero (y ∷ ys) x e = cc
  take-suc (suc n) [] x e = cc
  take-suc (suc n) (y ∷ ys) x e = ap (◌∷◌ y) (take-suc n ys x e)

  pub lt_of_get_elem? : (n : ℕ) (xs : List A) (x : A) → get_elem? xs n ≡ some x → n < length xs
  lt_of_get_elem? n [] x e = cc
  lt_of_get_elem? zero (y ∷ ys) x e = omega arith
  lt_of_get_elem? (suc n) (y ∷ ys) x e = omega (arith, lt_of_get_elem? n ys x e)

  pub le_of_get_elem?-none : (n : ℕ) (xs : List A) → get_elem? xs n ≡ none → length xs ≤ n
  le_of_get_elem?-none n [] e = omega arith
  le_of_get_elem?-none zero (y ∷ ys) e = absurd (cc)
  le_of_get_elem?-none (suc n) (y ∷ ys) e = omega (arith, le_of_get_elem?-none n ys e)

  pub get_elem?-lt : (n : ℕ) (xs : List A) → n < length xs → (x : A) × (get_elem? xs n ≡ some x)
  get_elem?-lt n [] h = absurd (omega arith)
  get_elem?-lt zero (y ∷ ys) h = (y, refl)
  get_elem?-lt (suc n) (y ∷ ys) h = get_elem?-lt n ys (omega arith)

  pub length-append : (xs ys : List A) → length (xs ++ ys) ≡ length xs + length ys
  length-append [] ys = omega arith
  length-append (x ∷ xs) ys = omega (arith, length-append xs ys)

  pub length-drop : (n : ℕ) (xs : List A) → length (drop n xs) ≡ length xs - n
  length-drop zero xs = omega arith
  length-drop (suc n) [] = omega arith
  length-drop (suc n) (x ∷ xs) = omega (arith, length-drop n xs)

  -- A list around one of its positions.
  pub drop-cons :
      (n : ℕ) (xs : List A)
      → n < length xs
      → (x : A) × (get_elem? xs n ≡ some x) × (drop n xs ≡ x ∷ drop (suc n) xs)
  drop-cons n [] h = absurd (omega arith)
  drop-cons zero (x ∷ xs) h = (x, refl, refl)
  drop-cons (suc n) (x ∷ xs) h = drop-cons n xs (omega arith)

  pub take-all_le : (n : ℕ) (xs : List A) → length xs ≤ n → take n xs ≡ xs
  take-all_le zero [] h = refl
  take-all_le zero (x ∷ xs) h = absurd (omega arith)
  take-all_le (suc n) [] h = refl
  take-all_le (suc n) (x ∷ xs) h = ap (◌∷◌ x) (take-all_le n xs (omega arith))

  pub drop-all_le : (n : ℕ) (xs : List A) → length xs ≤ n → drop n xs ≡ []
  drop-all_le zero [] h = refl
  drop-all_le zero (x ∷ xs) h = absurd (omega arith)
  drop-all_le (suc n) [] h = refl
  drop-all_le (suc n) (x ∷ xs) h = drop-all_le n xs (omega arith)

  pub nil_of_length : (xs : List A) → length xs ≡ 0 → xs ≡ []
  nil_of_length [] h = refl
  nil_of_length (x ∷ xs) h = absurd (omega arith)

  -- To prove a statement of a list with a position `n`, take the list apart there.
  pub cut {κ} :
      (P : List A → Type κ) (n : ℕ)
      → ((ys : List A) (x : A) (zs : List A) → length ys ≡ n → P (ys ++ x ∷ zs))
      → (xs : List A) → n < length xs
      → P xs
  cut P n f [] h = absurd (omega arith)
  cut P zero f (x ∷ xs) h = f [] x xs refl
  cut P (suc n) f (y ∷ xs) h =
      cut (λ l. P (y ∷ l)) n (λ ys x zs e. f (y ∷ ys) x zs (ap suc e)) xs (omega arith)

  pub get_elem?-middle :
      (ys : List A) (x : A) (zs : List A) → get_elem? (ys ++ x ∷ zs) (length ys) ≡ some x
  get_elem?-middle [] x zs = refl
  get_elem?-middle (y ∷ ys) x zs = get_elem?-middle ys x zs

  pub take-middle : (ys zs : List A) → take (length ys) (ys ++ zs) ≡ ys
  take-middle [] zs = refl
  take-middle (y ∷ ys) zs = ap (◌∷◌ y) (take-middle ys zs)

  pub drop-middle : (ys zs : List A) → drop (length ys) (ys ++ zs) ≡ zs
  drop-middle [] zs = refl
  drop-middle (y ∷ ys) zs = drop-middle ys zs
