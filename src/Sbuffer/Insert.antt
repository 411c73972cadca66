-- ===== src/Sbuffer/Insert.antt =====
-- `sbuffer_insert` and `sbuffer_init`: a new node at the end.
use osc_server.Base.{◌≡◌, refl, ◌≢◌, true, false, none, some, [], ◌∷◌, ◌++◌, arith, ◌==◌, ◌∙◌}
use osc_server.Memory.{Ptr, null, Store, write, write-other, ok, exited}
use osc_server.Memory.Returns.{Returns, returns}
use osc_server.Config.{SensorData}
use osc_server.Sbuffer.{
  SbufferNode, node, Shared, Status, success, load, set_next, sbuffer_init, shared, sbuffer_insert,
}
use osc_server.Sbuffer.Chain.{
  Cells, has, last_of, last, first, Chain, IsBuffer, IsBuffer-shared, has-append, last-other,
  Chain-write, not-has_of_none,
}

-- `p->next = q`, where `p` holds a node.
abbrev relink : Store SbufferNode → Ptr → Ptr → SensorData → Store SbufferNode
relink h p q d = write h p (some (node q d))

-- The record of the last node.
abbrev last_payload : SensorData → Cells → SensorData
last_payload d [] = d
last_payload d ((q, e) ∷ xs) = last_payload e xs

last-holds :
    (h : Store SbufferNode) (p : Ptr) (d : SensorData) (xs : Cells)
    → Chain h ((p, d) ∷ xs)
    → h (last_of p xs) ≡ some (node null (last_payload d xs))
last-holds h p d [] (ne, holds, new, rest) = holds
last-holds h p d ((q, e) ∷ xs) (ne, holds, new, rest) = last-holds h q e xs rest

last-ne-null :
    (h : Store SbufferNode) (p : Ptr) (d : SensorData) (xs : Cells)
    → Chain h ((p, d) ∷ xs)
    → last_of p xs ≢ null
last-ne-null h p d [] (ne, holds, new, rest) = ne
last-ne-null h p d ((q, e) ∷ xs) (ne, holds, new, rest) = last-ne-null h q e xs rest

-- Linking a node behind the last one makes the chain longer.
Chain-relink :
    (h : Store SbufferNode) (p : Ptr) (d : SensorData) (xs : Cells) (fresh : Ptr) (new : SensorData)
    → Chain h ((p, d) ∷ xs)
    → fresh ≢ null
    → h fresh ≡ some (node null new)
    → has fresh ((p, d) ∷ xs) ≡ false
    → Chain (relink h (last_of p xs) fresh (last_payload d xs)) (((p, d) ∷ xs) ++ (fresh, new) ∷ [])
unfolding write
Chain-relink h p d [] fresh new (ne, holds, out, rest) real fits apart =
    (ne, ground arith, ground arith, (real, ground arith, refl, tt))
Chain-relink h p d ((q, e) ∷ xs) fresh new (ne, holds, out, rest) real fits apart = (
  ne,
  write-other h (last_of q xs) p _ (last-other p q e xs out) ∙ holds,
  ground (arith, has-append p xs ((fresh, new) ∷ [])),
  Chain-relink h q e xs fresh new rest real fits (ground arith),
)

insert-nil :
    (h : Store SbufferNode) (fresh : Ptr) (d : SensorData)
    → fresh ≢ null
    → sbuffer_insert fresh d (shared null null false h)
      ≡ ok success (shared fresh fresh false (write h fresh (some (node null d))))
unfolding sbuffer_insert
insert-nil h fresh d real = let e : (fresh == null) ≡ false = ground arith in rw e

-- The buffer's last node `t` holds `e`.
insert-cons :
    (h : Store SbufferNode) (p t fresh : Ptr) (d e : SensorData)
    → t ≢ null
    → fresh ≢ null
    → write h fresh (some (node null d)) t ≡ some (node null e)
    → sbuffer_insert fresh d (shared p t false h)
      ≡ ok success (shared p fresh false (relink (write h fresh (some (node null d))) t fresh e))
unfolding sbuffer_insert set_next load
insert-cons h p t fresh d e ne real holds =
    let a : (fresh == null) ≡ false = ground arith in
    let b : (t == null) ≡ false = ground arith in rw (a, b, b, holds)

last-append : (p : Ptr) (xs : Cells) (q : Ptr) (d : SensorData) → last_of p (xs ++ (q, d) ∷ []) ≡ q
last-append p [] q d = refl
last-append p ((r, e) ∷ xs) q d = last-append r xs q d

-- The nodes of `xs` and the new one make up the buffer, and the rest of the store is as it was.
abbrev pub Inserted : Store SbufferNode → Ptr → SensorData → Cells → Status → Shared → Type 0
Inserted h fresh d xs st s =
    (st ≡ success)
    × IsBuffer s (xs ++ (fresh, d) ∷ [])
    × ((a : Ptr) → has a (xs ++ (fresh, d) ∷ []) ≡ false → s.nodes a ≡ h a)

insert-Chain :
    (h : Store SbufferNode) (fresh : Ptr) (d : SensorData) (xs : Cells)
    → Chain h xs
    → fresh ≢ null
    → h fresh ≡ none
    → Returns (Inserted h fresh d xs) (sbuffer_insert fresh d (shared (first xs) (last xs) false h))
unfolding write
insert-Chain h fresh d [] k real unused = rw (insert-nil h fresh d real) (
    returns
      (refl, record { handle = refl; chain = (real, ground arith, refl, tt) }, λ a o. ground arith))
insert-Chain h fresh d ((p, e) ∷ xs) k real unused =
    let out = not-has_of_none h fresh ((p, e) ∷ xs) k unused in
    let h' = write h fresh (some (node null d)) in
    let k' = Chain-write h fresh (some (node null d)) ((p, e) ∷ xs) k out in
    rw
      (insert-cons h p (last_of p xs) fresh d (last_payload e xs) (last-ne-null h p e xs k) real
        (last-holds h' p e xs k'))
      (returns (
        refl,
        record {
          handle = rw (last-append p xs fresh d) refl;
          chain = Chain-relink h' p e xs fresh d k' real (ground arith) out;
        },
        λ a o.
            write-other h' (last_of p xs) a _
              (last-other a p e xs (ground (arith, has-append a xs ((fresh, d) ∷ []))))
            ∙ write-other h fresh a _ (ground (arith, has-append a xs ((fresh, d) ∷ []))),
      ))

-- `sbuffer_insert` at a fresh address succeeds on every buffer, puts exactly one new node with the
-- record behind the nodes that are there, leaves the mutex free, and writes to no address outside
-- the buffer.
pub insert-appends :
    (s : Shared) (xs : Cells) (fresh : Ptr) (d : SensorData)
    → IsBuffer s xs
    → fresh ≢ null
    → s.nodes fresh ≡ none
    → Returns (Inserted s.nodes fresh d xs) (sbuffer_insert fresh d s)
insert-appends s xs fresh d is real unused =
    rw (IsBuffer-shared s xs is) (insert-Chain s.nodes fresh d xs is.chain real unused)

-- `sbuffer_init` makes an empty buffer whatever the globals held, or leaves the program.
pub init-IsBuffer :
    (s : Shared)
    → Returns (λ _ s'. IsBuffer s' [] × (s'.nodes ≡ s.nodes)) (sbuffer_init true s)
      × (sbuffer_init false s ≡ exited)
unfolding sbuffer_init
init-IsBuffer s = (returns (record { handle = refl; chain = tt }, refl), refl)
