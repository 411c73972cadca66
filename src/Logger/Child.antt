-- ===== src/Logger/Child.antt =====
-- The loop of the logger process, over what its calls of `read` give.
use osc_server.Base.{
  ◌≡◌, ◌≢◌, refl, Bool, true, false, List, [], ◌∷◌, ◌++◌, ap, sym, ◌∙◌, if◌then◌else◌,
}
use mathlib.Core.List.{append-nil, append_assoc}
use osc_server.Base.Text.{Text, codes, same_text, before_zero, flatten}

-- What the child keeps: the bytes in gateway.log, and whether it has left its loop.
pub record Child : Type 0 where
  pub log_file : Text
  pub finished : Bool

abbrev pub terminator : Text
terminator = codes "Data file closed\n"

-- One round. A read that ends or fails gives no bytes; `buffer` ends at its first zero byte.
pub logger_round : Text → Child → Child
logger_round [] s = record s { finished = true }
logger_round (b ∷ bs) s =
    if same_text (before_zero (b ∷ bs)) terminator
    then record { log_file = s.log_file ++ codes "Logger process terminating.\n"; finished = true }
    else record s { log_file = s.log_file ++ before_zero (b ∷ bs) }

-- The loop on the reads in order; what comes after the end stays unread.
pub logger_loop : List Text → Child → Child
unfolding logger_round
logger_loop [] s = s
logger_loop (chunk ∷ chunks) s =
    let next : Child = logger_round chunk s in
    let rest : Child = logger_loop chunks next in if next.finished then next else rest

-- A read that the child copies: some bytes, none zero, and not the text that ends the loop.
abbrev pub Plain : Text → Type 0
Plain chunk = (chunk ≢ []) × (before_zero chunk ≡ chunk) × (same_text chunk terminator ≡ false)

abbrev pub AllPlain : List Text → Type 0
AllPlain [] = Unit {0}
AllPlain (chunk ∷ chunks) = Plain chunk × AllPlain chunks

logger_round-Plain :
    (chunk file : Text)
    → Plain chunk
    → logger_round chunk (record { log_file = file; finished = false })
      ≡ record { log_file = file ++ chunk; finished = false }
unfolding logger_round
logger_round-Plain [] file (some_bytes, whole, other) = absurd (some_bytes refl)
logger_round-Plain (b ∷ bs) file (some_bytes, whole, other) = rw (whole, other) refl

-- The loop writes every byte that it reads before the pipe ends, however the reads cut the bytes
-- into chunks, and reads nothing after.
pub logger_loop-copies :
    (chunks more : List Text) (file : Text)
    → AllPlain chunks
    → logger_loop (chunks ++ [] ∷ more) (record { log_file = file; finished = false })
      ≡ record { log_file = file ++ flatten chunks; finished = true }
unfolding logger_loop logger_round
logger_loop-copies [] more file plain =
    ap (λ f. record { log_file = f; finished = true }) (sym (append-nil file))
logger_loop-copies (chunk ∷ chunks) more file (one, plain) =
    rw (logger_round-Plain chunk file one) (
      logger_loop-copies chunks more (file ++ chunk) plain
      ∙ ap (λ f. record { log_file = f; finished = true })
          (append_assoc file chunk (flatten chunks)))

-- A read of exactly the terminating text ends the loop with a last line of its own; what follows
-- in the pipe is not read.
pub logger_loop-terminates :
    (chunks more : List Text) (file : Text)
    → AllPlain chunks
    → logger_loop (chunks ++ terminator ∷ more) (record { log_file = file; finished = false })
      ≡ record {
        log_file = (file ++ flatten chunks) ++ codes "Logger process terminating.\n";
        finished = true;
      }
unfolding logger_loop logger_round
logger_loop-terminates [] more file plain =
    ap (λ f. record { log_file = f ++ codes "Logger process terminating.\n"; finished = true })
      (sym (append-nil file))
logger_loop-terminates (chunk ∷ chunks) more file (one, plain) =
    rw (logger_round-Plain chunk file one) (
      logger_loop-terminates chunks more (file ++ chunk) plain
      ∙ ap (λ f. record { log_file = f ++ codes "Logger process terminating.\n"; finished = true })
          (append_assoc file chunk (flatten chunks)))
