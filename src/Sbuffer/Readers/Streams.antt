-- ===== src/Sbuffer/Readers/Streams.antt =====
-- What each reader of the buffer receives over a whole history.
use osc_server.Base.{
  ℕ, zero, suc, ◌+◌, ◌≤◌, ◌≡◌, refl, ap, sym, ◌∙◌, false, none, some, List, [], ◌∷◌, ◌++◌, arith,
  length, take, drop, replicate, length-take, take-append-drop, take-all, inl, inr, Option-cases,
}
use mathlib.Core.List.{append_assoc, append-nil}
use osc_server.Memory.{null}
use osc_server.Config.{SensorData}
use osc_server.Sbuffer.{shared}
use osc_server.Sbuffer.Chain.{Cells, payloads}
use osc_server.Sbuffer.Readers.{Reader, World, Event, insert, read, step, run, inserted, Allocates}
use osc_server.Sbuffer.Readers.Inv.{Reading, Inv, length-payloads, insert-Inv, read-Inv}

-- `sbuffer_init` ran, and no reader has read.
abbrev pub start : (data' : SensorData) → World
start d = record {
  shared = shared null null false (λ _. none);
  readers = λ _. record { node = null; current = d; got = [] };
}

pub start-Inv : (d : SensorData) → Inv (start d) []
start-Inv d = record {
  buffer = record { handle = refl; chain = tt };
  only = λ a o. refl;
  reading = λ i. record { count = 0; fits = omega arith; at = refl; taken = refl };
}

module _ {P : World → Type 0} where
  run-cons :
      (w v : World) (e : Event) (es : List Event)
      → step w e ≡ some v
      → (u : World) × (run v es ≡ some u) × P u
      → (u : World) × (run w (e ∷ es) ≡ some u) × P u
  unfolding run
  run-cons w v e es s (u, r, p) = (u, rw s r, p)

run-Inv :
    (w : World) (xs : Cells) (es : List Event)
    → Inv w xs
    → Allocates xs es
    → (w' : World) × (run w es ≡ some w') × Inv w' (xs ++ inserted es)
unfolding run
run-Inv w xs [] v a = (w, refl, rw append-nil v)
run-Inv w xs (insert p d ∷ es) v (real, new, a) =
    let (w', e, v') = insert-Inv w xs p d v real new in
    run-cons w w' (insert p d) es e
      (rw (sym (append_assoc xs ((p, d) ∷ []) (inserted es))) (run-Inv w' _ es v' a))
run-Inv w xs (read i ∷ es) v a =
    let (w', e, v', _) = read-Inv w xs i v in run-cons w w' (read i) es e (run-Inv w' xs es v' a)

-- `k` reads by one reader, one after another.
abbrev pub polls : ℕ → ℕ → List Event
polls k i = replicate k (read i)

polls-Inv :
    (k : ℕ) (w : World) (xs : Cells) (i : ℕ)
    → Inv w xs
    → length xs ≤ length (w.readers i).got + k
    → (w' : World) × (run w (polls k i) ≡ some w')
      × Inv w' xs
      × (length xs ≤ length (w'.readers i).got)
unfolding run
polls-Inv zero w xs i v enough = (w, refl, v, omega (arith, enough))
polls-Inv (suc k) w xs i v enough =
    let (u, e, v', more) = read-Inv w xs i v in
    let (w', r, v'', all) = polls-Inv k u xs i v' (ground (arith, more)) in (w', rw e r, v'', all)

run-append : (w v : World) (es fs : List Event) → run w es ≡ some v → run w (es ++ fs) ≡ run v fs
unfolding run
run-append w v [] fs e = cc
run-append w v (x ∷ es) fs e = elim (Option-cases (step w x)) [
  | inl s ↦ absurd (none_ne (rw s at e))
  | inr (u, s) ↦ rw s (run-append u v es fs (rw s at e))
]
  where
    none_ne : none ≡ some v → ⊥
    none_ne h = cc

-- The records that a history hands to the buffer, in order.
abbrev pub records : List Event → List SensorData
records es = payloads (inserted es)

-- From an empty buffer, whatever the order of inserts and of reads by any number of readers, if each
-- insert gets a real address that is not in use, every call comes back, and what each reader has
-- received is a prefix of the records inserted: none is lost, repeated or reordered on its way.
pub streams_prefix :
    (d : SensorData) (es : List Event)
    → Allocates [] es
    → (w : World) × (run (start d) es ≡ some w)
      × ((i : ℕ) → (rest : List SensorData) × ((w.readers i).got ++ rest ≡ records es))
streams_prefix d es a =
    let (w, r, v) = run-Inv (start d) [] es (start-Inv d) a in
    (w, r, λ i. prefix (w.readers i) (v.reading i))
  where
    prefix :
        (q : Reader)
        → Reading (inserted es) q
        → (rest : List SensorData) × (q.got ++ rest ≡ records es)
    prefix q g = (
      drop g.count (records es),
      ap (λ l. l ++ drop g.count (records es)) g.taken ∙ take-append-drop g.count (records es),
    )

-- After any such history, as many more reads by one reader as records were inserted all come back,
-- and leave that reader with exactly the records inserted, in their order.
pub streams_complete :
    (d : SensorData) (es : List Event) (i : ℕ)
    → Allocates [] es
    → (w : World) × (run (start d) (es ++ polls (length (inserted es)) i) ≡ some w)
      × ((w.readers i).got ≡ records es)
streams_complete d es i a =
    let (u, r, v) = run-Inv (start d) [] es (start-Inv d) a in
    let (w, q, v', all) = polls-Inv (length (inserted es)) u (inserted es) i v (omega arith) in
    (w, run-append (start d) u es _ r ∙ q, whole (w.readers i) (v'.reading i) all)
  where
    whole :
        (q : Reader)
        → Reading (inserted es) q
        → length (inserted es) ≤ length q.got
        → q.got ≡ records es
    whole q g all =
        let n : g.count ≡ length (records es) = omega (
          arith,
          ap length g.taken,
          length-take g.count (records es) (omega (arith, g.fits, length-payloads (inserted es))),
          length-payloads (inserted es),
          g.fits,
          all,
        ) in
        g.taken ∙ ap (λ k. take k (records es)) n ∙ take-all (records es)
