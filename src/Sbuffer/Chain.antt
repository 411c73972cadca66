-- ===== src/Sbuffer/Chain.antt =====
-- What a buffer in memory stands for: the nodes from head to tail, in order.
use osc_server.Base.{
  ◌≡◌, refl, ◌≢◌, Bool, true, false, ◌||◌, Option, none, some, List, [], ◌∷◌, ◌++◌, arith, ◌==◌,
}
use osc_server.Memory.{Ptr, null, Store, write}
use osc_server.Config.{SensorData}
use osc_server.Sbuffer.{SbufferNode, node, Shared, shared, live}

-- Address and record of each node, in order.
abbrev pub Cells : Type 0
Cells = List (Ptr × SensorData)

abbrev pub payloads : Cells → List SensorData
payloads [] = []
payloads ((p, d) ∷ xs) = d ∷ payloads xs

abbrev pub has : Ptr → Cells → Bool
has a [] = false
has a ((p, d) ∷ xs) = (a == p) || has a xs

abbrev pub first : Cells → Ptr
first [] = null
first ((p, d) ∷ xs) = p

abbrev pub last_of : Ptr → Cells → Ptr
last_of p [] = p
last_of p ((q, d) ∷ xs) = last_of q xs

abbrev pub last : Cells → Ptr
last [] = null
last ((p, d) ∷ xs) = last_of p xs

-- The nodes are distinct, and each leads to the next.
abbrev pub Chain : Store SbufferNode → Cells → Type 0
Chain h [] = Unit {0}
Chain h ((p, d) ∷ xs) =
    (p ≢ null) × (h p ≡ some (node (first xs) d)) × (has p xs ≡ false) × Chain h xs

-- The state `s` holds a buffer with the nodes `xs`, and no thread is inside a locked section.
pub record IsBuffer (s : Shared) (xs : Cells) : Type 0 where
  pub handle : s.buffer ≡ live (record { head = first xs; tail = last xs; mutex = false })
  pub chain : Chain s.nodes xs

pub has-append : (a : Ptr) (xs ys : Cells) → has a (xs ++ ys) ≡ (has a xs || has a ys)
has-append a [] ys = refl
has-append a ((p, d) ∷ xs) ys = ground (arith, has-append a xs ys)

pub has-last_of : (p : Ptr) (xs : Cells) → ((last_of p xs == p) || has (last_of p xs) xs) ≡ true
has-last_of p [] = ground arith
has-last_of p ((q, d) ∷ xs) = ground (arith, has-last_of q xs)

-- A write outside the chain keeps it.
pub Chain-write :
    (h : Store SbufferNode) (a : Ptr) (c : Option SbufferNode) (xs : Cells)
    → Chain h xs
    → has a xs ≡ false
    → Chain (write h a c) xs
unfolding write
Chain-write h a c [] k out = tt
Chain-write h a c ((p, d) ∷ xs) (ne, holds, new, rest) out =
    (ne, ground arith, new, Chain-write h a c xs rest (ground arith))

-- No node of a chain lies at an address that holds none.
pub not-has_of_none :
    (h : Store SbufferNode) (a : Ptr) (xs : Cells) → Chain h xs → h a ≡ none → has a xs ≡ false
not-has_of_none h a [] k e = refl
not-has_of_none h a ((p, d) ∷ xs) (ne, holds, new, rest) e =
    ground (arith, not-has_of_none h a xs rest e)

pub not-has-null : (h : Store SbufferNode) (xs : Cells) → Chain h xs → has null xs ≡ false
not-has-null h [] k = refl
not-has-null h ((p, d) ∷ xs) (ne, holds, new, rest) = ground (arith, not-has-null h xs rest)

pub last-other :
    (p q : Ptr) (e : SensorData) (xs : Cells)
    → has p ((q, e) ∷ xs) ≡ false
    → (p == last_of q xs) ≡ false
last-other p q e [] out = ground arith
last-other p q e ((r, f) ∷ xs) out = last-other p r f xs (ground arith)

pub IsBuffer-shared :
    (s : Shared) (xs : Cells) → IsBuffer s xs → s ≡ shared (first xs) (last xs) false s.nodes
IsBuffer-shared s xs is = λ i. record { buffer = is.handle i; nodes = s.nodes }
