-- ===== src/Plab4/Threads/Progress.antt =====
-- The next steps of the threads of the fourth lab, as long as no marker is lost.
use osc_server.Base.{
  ℕ, ◌≤◌, ◌≡◌, refl, ◌≢◌, ◌==◌, List, [], ◌∷◌, arith, ap, inl, inr, ◌⊎◌, none, Bool-cases, subst,
  ◌∙◌,
}
use osc_server.Base.Tally.{tally}
use osc_server.Base.Text.{Text}
use osc_server.Memory.{Ptr, null, Store, ok}
use osc_server.Memory.Returns
use osc_server.Config.{SensorData}
use osc_server.Sbuffer
use osc_server.Sbuffer.{SbufferNode, Status, success, failure, empty}
use osc_server.Sbuffer.Chain.{payloads, IsBuffer}
use osc_server.Sbuffer.Insert.{insert-appends}
use osc_server.Sbuffer.Remove.{remove-cons, remove_waits}
use osc_server.Storage.Csv.{NoEnd}
use osc_server.Plab4.{sbuffer_insert, sbuffer_remove}
use osc_server.Plab4.Free.{free-unset}
use osc_server.Plab4.Threads.{
  joining, ReaderId, one, two, Reader, removing, waiting, waits, Signals, no_signal, none_waits,
  wakes, got, reinserting, reader_ended, Writer, opening, reading, writer_ended, World, Insertion,
  marker, Step, opens, inserts, inserts_marker, removes, writes, counts, reinserts, joins,
  Reachable,
}
use osc_server.Plab4.Threads.Weights.{
  unit, awake, asleep, le-over, mark, held, passed, over, sent, spent, over-passed_le,
}
use osc_server.Plab4.Threads.Inv.{Inv, is_joining}
use osc_server.Plab4.Threads.Ends.{AllEnded, inv, nothing_left, mark-NoEnd}

-- A list and how it starts.
List-cases : {A : Type 0} (xs : List A) → (xs ≡ []) ⊎ ((x : A) × (ys : List A) × (xs ≡ x ∷ ys))
List-cases [] = inl refl
List-cases (x ∷ xs) = inr (x, xs, refl)

data ReaderView (r : Reader) : Type 0 where
  at_wait : r ≡ waiting → ReaderView r
  at_remove : r ≡ removing → ReaderView r
  at_end : r ≡ reader_ended → ReaderView r
  acts : (d : SensorData) → (r ≡ got d) ⊎ (r ≡ reinserting d) → ReaderView r

reader_view : (r : Reader) → ReaderView r
reader_view removing = at_remove refl
reader_view waiting = at_wait refl
reader_view (got d) = acts d (inl refl)
reader_view (reinserting d) = acts d (inr refl)
reader_view reader_ended = at_end refl

data WriterView (r : Writer) : Type 0 where
  at_start : r ≡ opening → WriterView r
  at_file : (d : SensorData) → r ≡ reading d → WriterView r
  past_file : r ≡ writer_ended → WriterView r

writer_view : (r : Writer) → WriterView r
writer_view opening = at_start refl
writer_view (reading d) = at_file d refl
writer_view writer_ended = past_file refl

waits_or_not : (r : Reader) → (r ≡ waiting) ⊎ (r ≢ waiting)
waits_or_not removing = inr (λ e. cc)
waits_or_not waiting = inl refl
waits_or_not (got d) = inr (λ e. cc)
waits_or_not (reinserting d) = inr (λ e. cc)
waits_or_not reader_ended = inr (λ e. cc)

-- `pthread_cond_signal` comes back.
signal : (st : Status) (rs : ReaderId → Reader) → (rs' : ReaderId → Reader) × Signals st rs rs'
signal failure rs = (rs, no_signal (λ e. cc))
signal empty rs = (rs, no_signal (λ e. cc))
signal success rs = elim (waits_or_not (rs one)) [
  | inl first ↦ (_, wakes one first)
  | inr first ↦ elim (waits_or_not (rs two)) [
    | inl second ↦ (_, wakes two second)
    | inr second ↦ (rs, none_waits first second)
  ]
]

mark-le-unit : (ds : List SensorData) → tally mark ds ≤ tally unit ds
mark-le-unit [] = omega arith
mark-le-unit (d ∷ ds) = ground (arith, mark-le-unit ds)

early_unspent : (k : ℕ) → k ≤ 1 → spent k ≡ 0
early_unspent k h = ground arith

module _ (fixed4 : ℕ → Text) (nodes : Store SbufferNode) (input : List SensorData) (n : ℕ)
    (w : World) (fresh : Ptr) (clean : NoEnd input) (r : Reachable fixed4 nodes input n w)
    (on : w.main ≡ joining) (memory : fresh ≢ null) (unused : w.shared.nodes fresh ≡ none) where
  abbrev Next : Type 0
  Next = (v : World) × Step fixed4 w v

  abbrev i : Inv fixed4 input n w
  i = inv fixed4 nodes input clean r

  abbrev is_buffer : IsBuffer w.shared i.cells
  is_buffer = i.buffer (ap is_joining on)

  -- `sbuffer_insert` comes back.
  insertion : (d : SensorData) → (st : Status) × (s : _) × Insertion w.shared d st s
  unfolding sbuffer_insert Sbuffer.sbuffer_insert
  insertion d =
      let (st, s, e, _) =
        Returns.to_ok (insert-appends w.shared i.cells fresh d is_buffer memory unused) in
      (st, s, record { fresh = fresh; malloc = inr (memory, unused); run = e })

  writer_next : (d : SensorData) → w.writer ≡ reading d → Next
  writer_next d at = elim (List-cases w.file_in) [
    | inl over_now ↦
        let (st, s, call) = insertion (marker d) in
        let (rs, woke) = signal st w.readers in
        (_, inserts_marker w d st s rs on at over_now call woke)
    | inr (x, rest, more) ↦
        let (st, s, call) = insertion x in
        let (rs, woke) = signal st w.readers in (_, inserts w d x rest st s rs on at more call woke)
  ]

  reader_next :
      (t : ReaderId) (d : SensorData) → (w.readers t ≡ got d) ⊎ (w.readers t ≡ reinserting d) → Next
  reader_next t d (inl at) = elim (Bool-cases (d.id == 0)) [
    | inl z ↦ (_, counts w t d on at (ground arith))
    | inr nz ↦ (_, writes w t d on at (ground arith))
  ]
  reader_next t d (inr at) =
      let (st, s, call) = insertion d in
      let (rs, woke) = signal st w.readers in (_, reinserts w t d st s rs on at call woke)

  -- A reader at its test takes a record or waits.
  remove_next : (t : ReaderId) → w.readers t ≡ removing → Next
  unfolding sbuffer_remove Sbuffer.sbuffer_remove
  remove_next t at = elim (List-cases i.cells) [
    | inl nil ↦
        let is = subst (IsBuffer w.shared) nil is_buffer in
        let old : SensorData = record { id = 0; value = 0; ts = 0 } in
        (_, waits w t old on at (remove_waits w.shared old is).0)
    | inr ((p, d), xs, e) ↦
        let is = subst (IsBuffer w.shared) e is_buffer in
        let ((st, x), s, run, _) = Returns.to_ok (remove-cons w.shared p d d xs is) in
        (_, removes w t d x st s on at run)
  ]

  join_next : AllEnded w → Next
  join_next e =
      let empty_now = nothing_left fixed4 nodes input clean r e in
      let is = subst (IsBuffer w.shared) empty_now is_buffer in
      let (st, s, run, done) = Returns.to_ok (free-unset w.shared [] 1 is (omega arith)).0 in
      (_, joins w 1 s on e.writer e.first e.second (run ∙ ap (λ x. ok x s) done.0))

  module _ (in_play : NoEnd w.lost) (past : w.writer ≡ writer_ended) where
    -- A reader does not wait for ever: the marker is in the buffer, and its signal was given.
    no_sleeper :
        (t : ReaderId)
        → w.readers t ≡ waiting
        → over (held mark) w.readers ≡ 0
        → over awake w.readers ≡ 0
        → ⊥
    no_sleeper t at idle none_tests =
        let alone = over-passed_le w.readers t (ap passed at) in
        let sleeps = le-over asleep w.readers t in
        omega (
          arith,
          i.markers,
          i.counted,
          i.clean,
          i.clean_rows,
          idle,
          alone,
          ap sent past,
          i.rested (omega (arith, sleeps, ap asleep at)),
          none_tests,
          mark-le-unit (payloads i.cells),
          mark-NoEnd w.lost in_play,
          early_unspent w.eos_count,
        )

    readers_next : ReaderView (w.readers one) → ReaderView (w.readers two) → Next
    readers_next (acts d at) second = reader_next one d at
    readers_next first (acts d at) = reader_next two d at
    readers_next (at_remove p) second = remove_next one p
    readers_next first (at_remove q) = remove_next two q
    readers_next (at_end p) (at_end q) = join_next (record { writer = past; first = p; second = q })
    readers_next (at_wait p) (at_wait q) = absurd (
        no_sleeper one p (omega (arith, ap (held mark) p, ap (held mark) q))
          (omega (arith, ap awake p, ap awake q)))
    readers_next (at_wait p) (at_end q) = absurd (
        no_sleeper one p (omega (arith, ap (held mark) p, ap (held mark) q))
          (omega (arith, ap awake p, ap awake q)))
    readers_next (at_end p) (at_wait q) = absurd (
        no_sleeper two q (omega (arith, ap (held mark) p, ap (held mark) q))
          (omega (arith, ap awake p, ap awake q)))

-- If the input file has no record with id 0, then as long as `main` waits for the threads, no marker
-- was lost and `malloc` finds memory, some thread or `main` itself can take a step. A reader in
-- `pthread_cond_wait` takes none before it is signalled.
pub unfinished-Step :
    (fixed4 : ℕ → Text) (nodes : Store SbufferNode) (input : List SensorData) (n : ℕ) (w : World)
    (fresh : Ptr)
    → NoEnd input
    → Reachable fixed4 nodes input n w
    → w.main ≡ joining
    → fresh ≢ null
    → w.shared.nodes fresh ≡ none
    → NoEnd w.lost
    → (v : World) × Step fixed4 w v
unfinished-Step fixed4 nodes input n w fresh clean r on memory unused in_play =
    let by_writer = writer_next fixed4 nodes input n w fresh clean r on memory unused in
    let by_readers = readers_next fixed4 nodes input n w fresh clean r on memory unused in_play in
    elim (writer_view w.writer) [
      | at_start e ↦ (_, opens w (record { id = 0; value = 0; ts = 0 }) on e)
      | at_file d e ↦ by_writer d e
      | past_file e ↦ by_readers e (reader_view (w.readers one)) (reader_view (w.readers two))
    ]
