-- ===== src/Sbuffer/Read.antt =====
-- `sbuffer_read`: a reader's place, and what the next call gives.
use osc_server.Base.{
  ℕ, zero, suc, ◌≤◌, ◌≡◌, refl, ◌≢◌, false, Option, none, some, [], ◌∷◌, arith, ◌==◌, length,
  get_elem?,
}
use osc_server.Memory.{Ptr, null, Store, ok, exited, fault}
use osc_server.Config.{SensorData}
use osc_server.Sbuffer.{
  SbufferNode, Shared, Status, success, empty, shared, unset, dangling, load, sbuffer_read,
}
use osc_server.Sbuffer.Chain.{Cells, payloads, first, last, Chain, IsBuffer, IsBuffer-shared}

-- The place of a reader that has read `n` records: NULL, or the node of the last one.
abbrev pub place : Cells → ℕ → Ptr
place xs zero = null
place [] (suc n) = null
place ((p, d) ∷ xs) (suc zero) = p
place ((p, d) ∷ xs) (suc (suc n)) = place xs (suc n)

-- What `sbuffer_read` gives to a reader that has read `n` records.
abbrev pub ReadResult : Type 0
ReadResult = Status × Ptr × SensorData

abbrev pub outcome : Cells → ℕ → SensorData → Option SensorData → ReadResult
outcome xs n old none = (empty, place xs n, old)
outcome xs n old (some d) = (success, place xs (suc n), d)

load-ok :
    (s : Shared) (p : Ptr) (n : SbufferNode) → p ≢ null → s.nodes p ≡ some n → load p s ≡ ok n s
unfolding load
load-ok s p n ne holds = let e : (p == null) ≡ false = ground arith in rw (e, holds)

-- Reading behind the first node, in a chain that the buffer's list ends with.
read-Chain :
    (h : Store SbufferNode) (head tail p : Ptr) (d old : SensorData) (xs : Cells) (n : ℕ)
    → head ≢ null
    → Chain h ((p, d) ∷ xs)
    → n ≤ length xs
    → sbuffer_read (place ((p, d) ∷ xs) (suc n)) old (shared head tail false h)
      ≡ ok
          (outcome ((p, d) ∷ xs) (suc n) old (get_elem? (payloads xs) n))
          (shared head tail false h)
unfolding sbuffer_read
read-Chain h head tail p d old [] zero real (ne, holds, new, rest) fits =
    let a : (head == null) ≡ false = ground arith in
    let b : (p == null) ≡ false = ground arith in
    rw (a, b, load-ok (shared head tail false h) p _ ne holds)
read-Chain h head tail p d old [] (suc n) real (ne, holds, new, rest) fits = absurd (omega arith)
read-Chain h head tail p d old ((q, e) ∷ xs) zero real (ne, holds, new, rest) fits =
    let a : (head == null) ≡ false = ground arith in
    let b : (p == null) ≡ false = ground arith in
    let c : (q == null) ≡ false = ground (arith, rest.0) in
    rw (
      a,
      b,
      load-ok (shared head tail false h) p _ ne holds,
      c,
      load-ok (shared head tail false h) q _ rest.0 rest.1,
    )
read-Chain h head tail p d old ((q, e) ∷ xs) (suc n) real (ne, holds, new, rest) fits =
    read-Chain h head tail q e old xs n real rest (omega arith)

read-first :
    (h : Store SbufferNode) (xs : Cells) (old : SensorData)
    → Chain h xs
    → sbuffer_read null old (shared (first xs) (last xs) false h)
      ≡ ok (outcome xs 0 old (get_elem? (payloads xs) 0)) (shared (first xs) (last xs) false h)
unfolding sbuffer_read
read-first h [] old k = refl
read-first h ((p, d) ∷ xs) old (ne, holds, new, rest) =
    let b : (p == null) ≡ false = ground arith in
    rw (b, load-ok (shared p (last ((p, d) ∷ xs)) false h) p _ ne holds)

read-place :
    (h : Store SbufferNode) (xs : Cells) (n : ℕ) (old : SensorData)
    → Chain h xs
    → n ≤ length xs
    → sbuffer_read (place xs n) old (shared (first xs) (last xs) false h)
      ≡ ok (outcome xs n old (get_elem? (payloads xs) n)) (shared (first xs) (last xs) false h)
read-place h xs zero old k fits = read-first h xs old k
read-place h [] (suc n) old k fits = absurd (omega arith)
read-place h ((p, d) ∷ xs) (suc n) old k fits =
    read-Chain h p (last ((p, d) ∷ xs)) p d old xs n k.0 k (omega arith)

-- A reader that has read the first `n` records of a buffer gets record `n` from its next
-- `sbuffer_read` and moves to that node; where it has read all, it gets the empty status and keeps
-- its place and its record. The buffer does not change.
pub read-get_elem? :
    (s : Shared) (xs : Cells) (n : ℕ) (old : SensorData)
    → IsBuffer s xs
    → n ≤ length xs
    → sbuffer_read (place xs n) old s ≡ ok (outcome xs n old (get_elem? (payloads xs) n)) s
read-get_elem? s xs n old is fits =
    rw (IsBuffer-shared s xs is) (read-place s.nodes xs n old is.chain fits)

-- `sbuffer_read` leaves the program where the buffer was never made, and is undefined once it was
-- freed.
pub read_errors :
    (h : Store SbufferNode) (p : Ptr) (old : SensorData)
    → (sbuffer_read p old (record { buffer = unset; nodes = h }) ≡ exited)
      × (sbuffer_read p old (record { buffer = dangling; nodes = h }) ≡ fault)
unfolding sbuffer_read
read_errors h p old = (refl, refl)
