-- ===== src/System/Splits.antt =====
-- Where, in the results of a reader that has all records, one record and those before it stand.
use osc_server.Base.{ℕ, zero, suc, ◌≡◌, refl, false, List, [], ◌∷◌, ◌++◌, ap, sym, ◌∙◌, length}
use osc_server.Config.{SensorData}
use osc_server.Sbuffer.{Status, success, failure, empty}
use osc_server.Sbuffer.Chain.{Cells}
use osc_server.Sbuffer.Readers.{Event, insert, read, inserted, Allocates}
use osc_server.Sbuffer.Readers.Streams.{start, polls, records, start-Inv, streams_complete}
use osc_server.Storage.{is_empty}
use osc_server.Storage.Csv.{delivered}
use osc_server.System.{answers}
use osc_server.System.Answers.{run-delivered}

-- The results up to that of a record: before it are results whose records come before it.
pub record Splits (reads : List (Status × SensorData)) (ds : List SensorData) (last : SensorData)
    : Type 0 where
  pub before : List (Status × SensorData)
  pub status : Status
  pub later : List (Status × SensorData)
  pub whole : reads ≡ before ++ (status, last) ∷ later
  pub records_before : delivered before ≡ ds
  pub found : is_empty status ≡ false

prepend :
    (one : Status × SensorData) (reads : List (Status × SensorData)) (ds ds' : List SensorData)
    (last : SensorData)
    → ((pre : List (Status × SensorData)) → delivered pre ≡ ds → delivered (one ∷ pre) ≡ ds')
    → Splits reads ds last
    → Splits (one ∷ reads) ds' last
prepend one reads ds ds' last grows s = record {
  before = one ∷ s.before;
  status = s.status;
  later = s.later;
  whole = ap (◌∷◌ one) s.whole;
  records_before = grows s.before s.records_before;
  found = s.found;
}

found_here :
    (status : Status) (d : SensorData) (reads : List (Status × SensorData)) (last : SensorData)
    → is_empty status ≡ false
    → d ≡ last
    → Splits ((status, d) ∷ reads) [] last
found_here status d reads last real same = record {
  before = [];
  status = status;
  later = reads;
  whole = ap (λ x. (status, x) ∷ reads) same;
  records_before = refl;
  found = real;
}

splits :
    (reads : List (Status × SensorData)) (ds : List SensorData) (last : SensorData)
    (rest : List SensorData)
    → delivered reads ≡ ds ++ last ∷ rest
    → Splits reads ds last
splits [] [] last rest e = absurd (cc)
splits [] (x ∷ ds) last rest e = absurd (cc)
splits ((empty, d) ∷ reads) ds last rest e =
    prepend (empty, d) reads ds ds last (λ pre h. h) (splits reads ds last rest e)
splits ((success, d) ∷ reads) [] last rest e = found_here success d reads last refl cc
splits ((success, d) ∷ reads) (x ∷ ds) last rest e =
    let same : d ≡ x = cc in
    prepend (success, d) reads ds (x ∷ ds) last (λ pre h. cc) (splits reads ds last rest cc)
splits ((failure, d) ∷ reads) [] last rest e = found_here failure d reads last refl cc
splits ((failure, d) ∷ reads) (x ∷ ds) last rest e =
    let same : d ≡ x = cc in
    prepend (failure, d) reads ds (x ∷ ds) last (λ pre h. cc) (splits reads ds last rest cc)

-- A history, and as many reads more by reader `i` as records were inserted.
abbrev pub drained : ℕ → List Event → List Event
drained i es = es ++ polls (length (inserted es)) i

Allocates-polls :
    (xs : Cells) (es : List Event) (k i : ℕ) → Allocates xs es → Allocates xs (es ++ polls k i)
Allocates-polls xs [] zero i a = tt
Allocates-polls xs [] (suc k) i a = Allocates-polls xs [] k i tt
Allocates-polls xs (insert p d ∷ es) k i (real, new, a) = (real, new, Allocates-polls _ es k i a)
Allocates-polls xs (read j ∷ es) k i a = Allocates-polls xs es k i a

pub answers-Splits :
    (d : SensorData) (es : List Event) (i : ℕ) (ds rest : List SensorData) (last : SensorData)
    → Allocates [] es
    → records es ≡ ds ++ last ∷ rest
    → Splits (answers i (start d) (drained i es)) ds last
answers-Splits d es i ds rest last a r =
    let (w, q, g) = streams_complete d es i a in
    splits _ ds last rest (
      sym (
        run-delivered (start d) w [] i (drained i es) (start-Inv d) (Allocates-polls [] es _ i a) q)
      ∙ g
      ∙ r)
