-- ===== src/Plab4/OutputTest/Match.antt =====
-- When `output_test` reports no error.
use osc_server.Base.{
  ℕ, ◌+◌, ◌≤◌, ◌≡◌, refl, Bool, true, false, not, Option, none, some, List, [], ◌∷◌, if◌then◌else◌,
  ◌↔◌, arith, length, Bool-cases, inl, inr,
}
use osc_server.Base.Text.{Text}
use osc_server.Plab4.OutputTest.{Scanned, mismatch, bad_fields, compare_lines, output_test}

refused : (opened : Bool) → (if not opened then true else true) ≡ true
refused true = refl
refused false = refl

module _ (scan_out scan_test : Text → Option Scanned) (value_ne : ℕ → ℕ → Bool) where
  -- Both lines have three fields, and these agree.
  pub record Match (out expected : Text) : Type 0 where
    pub left : Scanned
    pub right : Scanned
    pub left_scanned : scan_out out ≡ some left
    pub right_scanned : scan_test expected ≡ some right
    pub same_id : left.id ≡ right.id
    pub same_value : value_ne left.value right.value ≡ false
    pub same_ts : left.ts ≡ right.ts

  -- The lines match one by one, as far as both files go.
  abbrev pub AllMatch : List Text → List Text → Type 0
  AllMatch [] test = Unit {0}
  AllMatch (out ∷ output) [] = Unit {0}
  AllMatch (out ∷ output) (expected ∷ test) = Match out expected × AllMatch output test

  -- The output file has as many lines as the other, or one more.
  abbrev pub SameLines : List Text → List Text → Type 0
  SameLines output test = (length test ≤ length output) × (length output ≤ length test + 1)

  same_fields :
      (a b : Scanned)
      → mismatch scan_out scan_test value_ne a b ≡ false
      → (a.id ≡ b.id) × (value_ne a.value b.value ≡ false) × (a.ts ≡ b.ts)
  unfolding mismatch
  same_fields a b e = (ground arith, ground arith, ground arith)

  of_scanned :
      (out expected : Text) (o e : Option Scanned)
      → scan_out out ≡ o
      → scan_test expected ≡ e
      → bad_fields scan_out scan_test value_ne o e ≡ false
      → Match out expected
  unfolding bad_fields
  of_scanned out expected none e p q bad = absurd (cc)
  of_scanned out expected (some a) none p q bad = absurd (cc)
  of_scanned out expected (some a) (some b) p q bad =
      let (same_id, same_value, same_ts) = same_fields a b bad in
      record {
        left = a;
        right = b;
        left_scanned = p;
        right_scanned = q;
        same_id = same_id;
        same_value = same_value;
        same_ts = same_ts;
      }

  Match-not-bad :
      (out expected : Text)
      → Match out expected
      → bad_fields scan_out scan_test value_ne (scan_out out) (scan_test expected) ≡ false
  unfolding bad_fields mismatch
  Match-not-bad out expected m = rw (m.left_scanned, m.right_scanned, m.same_value) (ground arith)

  compare_lines-true :
      (output test : List Text) → compare_lines scan_out scan_test value_ne output test true ≡ true
  unfolding compare_lines
  compare_lines-true [] [] = refl
  compare_lines-true [] (t ∷ ts) = refl
  compare_lines-true (o ∷ []) [] = refl
  compare_lines-true (o ∷ p ∷ os) [] = refl
  compare_lines-true (o ∷ os) (t ∷ ts) =
      elim (Bool-cases (bad_fields scan_out scan_test value_ne (scan_out o) (scan_test t))) [
        | inl e ↦ rw e (compare_lines-true os ts)
        | inr e ↦ rw e (compare_lines-true os ts)
      ]

  compare_lines-Match :
      (output test : List Text)
      → compare_lines scan_out scan_test value_ne output test false ≡ false
      → AllMatch output test × SameLines output test
  unfolding compare_lines
  compare_lines-Match [] [] e = (tt, (omega arith, omega arith))
  compare_lines-Match [] (t ∷ ts) e = absurd (cc)
  compare_lines-Match (o ∷ []) [] e = (tt, (omega arith, omega arith))
  compare_lines-Match (o ∷ p ∷ os) [] e = absurd (cc)
  compare_lines-Match (o ∷ os) (t ∷ ts) e =
      elim (Bool-cases (bad_fields scan_out scan_test value_ne (scan_out o) (scan_test t))) [
        | inl bad ↦
            let f : compare_lines scan_out scan_test value_ne os ts true ≡ false = rw bad at e in
            absurd (cc (compare_lines-true os ts))
        | inr good ↦
            let f : compare_lines scan_out scan_test value_ne os ts false ≡ false = rw good at e in
            let (all, same) = compare_lines-Match os ts f in
            (
              (of_scanned o t (scan_out o) (scan_test t) refl refl good, all),
              (omega (arith, same), omega (arith, same)),
            )
      ]

  Match-compare_lines :
      (output test : List Text)
      → AllMatch output test
      → SameLines output test
      → compare_lines scan_out scan_test value_ne output test false ≡ false
  unfolding compare_lines
  Match-compare_lines [] [] all same = refl
  Match-compare_lines [] (t ∷ ts) all same = absurd (omega arith)
  Match-compare_lines (o ∷ []) [] all same = refl
  Match-compare_lines (o ∷ p ∷ os) [] all same = absurd (omega arith)
  Match-compare_lines (o ∷ os) (t ∷ ts) all same =
      rw (Match-not-bad o t all.0)
        (Match-compare_lines os ts all.1 (omega (arith, same), omega (arith, same)))

  -- With both files open, `output_test` reports no error exactly when the lines match one by one
  -- and the output file has as many lines as the expected one or, since the failing `fgets` of the
  -- loop has already taken a line of the output, one more. It reports an error for a file that does
  -- not open.
  pub output_test-Match :
      (output test : List Text)
      → ((output_test scan_out scan_test value_ne true true output test ≡ false)
          ↔ (AllMatch output test × SameLines output test))
        × ((opened : Bool)
            → (output_test scan_out scan_test value_ne false opened output test ≡ true)
              × (output_test scan_out scan_test value_ne opened false output test ≡ true))
  unfolding output_test
  output_test-Match output test = (
    (compare_lines-Match output test, λ h. Match-compare_lines output test h.0 h.1),
    λ opened. (refl, refused opened),
  )
