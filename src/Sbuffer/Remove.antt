-- ===== src/Sbuffer/Remove.antt =====
-- `sbuffer_remove`, which the tests of the buffer use.
use osc_server.Base.{◌≡◌, refl, true, false, none, [], ◌∷◌, arith, ◌==◌}
use osc_server.Memory.{Ptr, null, Store, write, ok, blocked}
use osc_server.Memory.Returns.{Returns, returns}
use osc_server.Config.{SensorData}
use osc_server.Sbuffer.{
  SbufferNode, Shared, Status, success, failure, shared, unset, load, free_node, sbuffer_remove,
}
use osc_server.Sbuffer.Chain.{
  Cells, last_of, Chain, Chain-write, IsBuffer, IsBuffer-shared, last-other,
}

-- The first record was handed out, its node freed, and the rest of the store left alone.
abbrev pub Removed :
    Store SbufferNode → Ptr → SensorData → Cells → Status × SensorData → Shared → Type 0
Removed h p d xs (st, got) s =
    (st ≡ success) × (got ≡ d) × (s.nodes ≡ write h p none) × IsBuffer s xs

remove-Chain :
    (h : Store SbufferNode) (p : Ptr) (d old : SensorData) (xs : Cells)
    → Chain h ((p, d) ∷ xs)
    → Returns (Removed h p d xs) (sbuffer_remove old (shared p (last_of p xs) false h))
unfolding sbuffer_remove load free_node
remove-Chain h p d old [] (ne, holds, new, rest) =
    let a : (p == null) ≡ false = ground arith in
    let b : (p == p) ≡ true = ground arith in
    rw (a, a, holds, b, a, holds) (returns (refl, refl, refl, record { handle = refl; chain = tt }))
remove-Chain h p d old ((q, e) ∷ xs) (ne, holds, new, rest) =
    let a : (p == null) ≡ false = ground arith in
    let b : (p == last_of q xs) ≡ false = last-other p q e xs new in
    rw (a, a, holds, b, a, holds)
      (returns (
        refl,
        refl,
        refl,
        record { handle = refl; chain = Chain-write h p none ((q, e) ∷ xs) rest new },
      ))

-- `sbuffer_remove` hands out the oldest record of a buffer that is not empty, frees its node and
-- nothing else, and leaves the other records in order and the mutex free.
pub remove-cons :
    (s : Shared) (p : Ptr) (d old : SensorData) (xs : Cells)
    → IsBuffer s ((p, d) ∷ xs)
    → Returns (Removed s.nodes p d xs) (sbuffer_remove old s)
remove-cons s p d old xs is =
    rw (IsBuffer-shared s ((p, d) ∷ xs) is) (remove-Chain s.nodes p d old xs is.chain)

-- On an empty buffer `sbuffer_remove` waits for another thread; where the buffer was never made it
-- reports failure, and changes neither the state nor the caller's record.
pub remove_waits :
    (s : Shared) (old : SensorData)
    → IsBuffer s []
    → (sbuffer_remove old s ≡ blocked)
      × (sbuffer_remove old (record s { buffer = unset })
          ≡ ok (failure, old) (record s { buffer = unset }))
unfolding sbuffer_remove
remove_waits s old is = (rw (IsBuffer-shared s [] is), refl)
