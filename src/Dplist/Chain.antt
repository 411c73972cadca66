-- ===== src/Dplist/Chain.antt =====
-- What a list in memory stands for, and how it splits, joins and survives writes.
use osc_server.Base.{
  ◌≡◌, refl, ◌≢◌, Bool, true, false, ◌||◌, Option, none, some, List, [], ◌∷◌, ◌++◌, arith, ◌==◌,
  ◌∙◌, ap, sym, Bool-cases, inl, inr,
}
use osc_server.Memory.{Ptr, null, Store, write}
use osc_server.Dplist.Memory.{DplistNode, node, modify, headed, Mem, memory}

-- Address and element pointer of each node, in order.
abbrev pub Cells : Type 0
Cells = List (Ptr × Ptr)

abbrev pub has : Ptr → Cells → Bool
has a [] = false
has a ((p, e) ∷ xs) = (a == p) || has a xs

-- The first node, or what stands in its place where there is none; so for the last.
abbrev pub first_or : Ptr → Cells → Ptr
first_or stop [] = stop
first_or stop ((p, e) ∷ xs) = p

abbrev pub last_or : Ptr → Cells → Ptr
last_or prev [] = prev
last_or prev ((p, e) ∷ xs) = last_or p xs

-- Distinct nodes from one that follows `prev` to one that precedes `stop`.
abbrev pub Chain : Store DplistNode → Ptr → Ptr → Cells → Type 0
Chain h prev stop [] = Unit {0}
Chain h prev stop ((p, e) ∷ xs) =
    (p ≢ null)
    × (h p ≡ some (node prev (first_or stop xs) e))
    × (has p xs ≡ false)
    × Chain h p stop xs

-- The live list has the nodes `xs`.
pub record IsList {E : Type 0} (s : Mem E) (xs : Cells) : Type 0 where
  pub handle : s.list ≡ headed (first_or null xs)
  pub chain : Chain s.nodes null null xs

pub IsList-memory :
    {E : Type 0} (s : Mem E) (xs : Cells)
    → IsList s xs
    → s ≡ memory (headed (first_or null xs)) s.nodes s.elements
IsList-memory s xs is = λ i. record { list = is.handle i; nodes = s.nodes; elements = s.elements }

pub has-append : (a : Ptr) (xs ys : Cells) → has a (xs ++ ys) ≡ (has a xs || has a ys)
has-append a [] ys = refl
has-append a ((p, e) ∷ xs) ys = ground (arith, has-append a xs ys)

pub ne_head : (a p e : Ptr) (xs : Cells) → has a ((p, e) ∷ xs) ≡ false → (a == p) ≡ false
ne_head a p e xs o = ground arith

pub outside :
    (a : Ptr) (xs ys : Cells) → has a (xs ++ ys) ≡ false → (has a xs ≡ false) × (has a ys ≡ false)
outside a xs ys o = (ground (arith, has-append a xs ys), ground (arith, has-append a xs ys))

-- A chain survives any change that spares its own addresses.
pub frame :
    (h g : Store DplistNode) (prev stop : Ptr) (xs : Cells)
    → Chain h prev stop xs
    → ((a : Ptr) → has a xs ≡ true → g a ≡ h a)
    → Chain g prev stop xs
frame h g prev stop [] k same = tt
frame h g prev stop ((p, e) ∷ xs) (ne, holds, new, rest) same = (
  ne,
  same p (ground arith) ∙ holds,
  new,
  frame h g p stop xs rest (λ a i. same a (ground arith)),
)

pub frame-write :
    (h : Store DplistNode) (prev stop a : Ptr) (c : Option DplistNode) (xs : Cells)
    → Chain h prev stop xs
    → has a xs ≡ false
    → Chain (write h a c) prev stop xs
unfolding write
frame-write h prev stop a c xs k out = frame h _ prev stop xs k (λ b i. ground arith)

pub modify-other :
    (h : Store DplistNode) (a b : Ptr) (f : DplistNode → DplistNode)
    → (b == a) ≡ false
    → modify h a f b ≡ h b
unfolding modify
modify-other h a b f other = rw other

pub modify_self :
    (h : Store DplistNode) (a : Ptr) (f : DplistNode → DplistNode) (n : DplistNode)
    → h a ≡ some n
    → modify h a f a ≡ some (f n)
unfolding modify
modify_self h a f n e = let s : (a == a) ≡ true = ground arith in rw (s, e)

pub has_ne : (a b : Ptr) (xs : Cells) → has a xs ≡ true → has b xs ≡ false → (a == b) ≡ false
has_ne a b [] i o = cc
has_ne a b ((p, e) ∷ xs) i o = ground (arith, has_ne a b xs)

pub frame-modify :
    (h : Store DplistNode) (prev stop a : Ptr) (f : DplistNode → DplistNode) (xs : Cells)
    → Chain h prev stop xs
    → has a xs ≡ false
    → Chain (modify h a f) prev stop xs
frame-modify h prev stop a f xs k out =
    frame h _ prev stop xs k (λ b i. modify-other h a b f (has_ne b a xs i out))

pub first_or-append :
    (stop : Ptr) (ys zs : Cells) → first_or stop (ys ++ zs) ≡ first_or (first_or stop zs) ys
first_or-append stop [] zs = refl
first_or-append stop ((p, e) ∷ ys) zs = refl

pub last_or-append :
    (prev : Ptr) (ys zs : Cells) → last_or prev (ys ++ zs) ≡ last_or (last_or prev ys) zs
last_or-append prev [] zs = refl
last_or-append prev ((p, e) ∷ ys) zs = last_or-append p ys zs

-- A chain in two parts.
pub split :
    (h : Store DplistNode) (prev stop : Ptr) (ys zs : Cells)
    → Chain h prev stop (ys ++ zs)
    → Chain h prev (first_or stop zs) ys × Chain h (last_or prev ys) stop zs
split h prev stop [] zs k = (tt, k)
split h prev stop ((p, e) ∷ ys) zs (ne, holds, new, rest) =
    let (a, b) = split h p stop ys zs rest in
    (
      (
        ne,
        holds ∙ ap (λ q. some (node prev q e)) (first_or-append stop ys zs),
        ground (arith, has-append p ys zs),
        a,
      ),
      b,
    )

pub apart :
    (h : Store DplistNode) (prev stop a : Ptr) (ys zs : Cells)
    → Chain h prev stop (ys ++ zs)
    → has a ys ≡ true
    → has a zs ≡ false
apart h prev stop a [] zs k i = cc
apart h prev stop a ((p, e) ∷ ys) zs (ne, holds, new, rest) i =
    ground (arith, has-append p ys zs, apart h p stop a ys zs rest)

pub join :
    (h : Store DplistNode) (prev stop : Ptr) (ys zs : Cells)
    → Chain h prev (first_or stop zs) ys
    → Chain h (last_or prev ys) stop zs
    → ((a : Ptr) → has a ys ≡ true → has a zs ≡ false)
    → Chain h prev stop (ys ++ zs)
join h prev stop [] zs k l out = l
join h prev stop ((p, e) ∷ ys) zs (ne, holds, new, rest) l out = (
  ne,
  holds ∙ ap (λ q. some (node prev q e)) (sym (first_or-append stop ys zs)),
  ground (arith, has-append p ys zs, out p),
  join h p stop ys zs rest l (λ a i. out a (ground arith)),
)

pub last-other :
    (a p e : Ptr) (xs : Cells) → has a ((p, e) ∷ xs) ≡ false → (a == last_or p xs) ≡ false
last-other a p e [] out = ground arith
last-other a p e ((q, f) ∷ xs) out = last-other a q f xs (ground arith)

pub has-last : (p e : Ptr) (xs : Cells) → has (last_or p xs) ((p, e) ∷ xs) ≡ true
has-last p e [] = ground arith
has-last p e ((q, f) ∷ xs) = ground (arith, has-last q f xs)

pub not-has_of_none :
    (h : Store DplistNode) (prev stop a : Ptr) (xs : Cells)
    → Chain h prev stop xs
    → h a ≡ none
    → has a xs ≡ false
not-has_of_none h prev stop a [] k e = refl
not-has_of_none h prev stop a ((p, f) ∷ xs) (ne, holds, new, rest) e =
    ground (arith, not-has_of_none h p stop a xs rest e)

-- Linking the end of a chain to another node, and its start to another one.
pub restop :
    (h : Store DplistNode) (prev stop stop' p e : Ptr) (xs : Cells)
    → Chain h prev stop ((p, e) ∷ xs)
    → Chain (modify h (last_or p xs) (λ n. record n { next = stop' })) prev stop' ((p, e) ∷ xs)
restop h prev stop stop' p e [] (ne, holds, new, rest) = (ne, modify_self h p _ _ holds, refl, tt)
restop h prev stop stop' p e ((q, f) ∷ xs) (ne, holds, new, rest) = (
  ne,
  modify-other h (last_or q xs) p _ (last-other p q f xs new) ∙ holds,
  new,
  restop h p stop stop' q f xs rest,
)

pub reprev :
    (h : Store DplistNode) (prev prev' stop p e : Ptr) (xs : Cells)
    → Chain h prev stop ((p, e) ∷ xs)
    → Chain (modify h p (λ n. record n { prev = prev' })) prev' stop ((p, e) ∷ xs)
reprev h prev prev' stop p e xs (ne, holds, new, rest) =
    (ne, modify_self h p _ _ holds, new, frame-modify h p stop p _ xs rest new)

-- The last node of a chain.
pub last-holds :
    (h : Store DplistNode) (prev stop p e : Ptr) (xs : Cells)
    → Chain h prev stop ((p, e) ∷ xs)
    → (q d : Ptr) × (last_or p xs ≢ null) × (h (last_or p xs) ≡ some (node q stop d))
last-holds h prev stop p e [] (ne, holds, new, rest) = (prev, e, ne, holds)
last-holds h prev stop p e ((q, f) ∷ xs) (ne, holds, new, rest) = last-holds h p stop q f xs rest

-- No address stands in both parts of a chain.
pub not-has-left :
    (h : Store DplistNode) (prev stop a : Ptr) (ys zs : Cells)
    → Chain h prev stop (ys ++ zs)
    → has a zs ≡ true
    → has a ys ≡ false
not-has-left h prev stop a ys zs k i = elim (Bool-cases (has a ys)) [
  | inl there ↦ ground (arith, apart h prev stop a ys zs k there)
  | inr out ↦ out
]
