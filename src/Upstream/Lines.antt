-- ===== src/Upstream/Lines.antt =====
-- ScanLines of internal/upstream/client.go: a goroutine reads the body and sends its complete lines; the
-- caller takes them in order, until the end, a failed callback, the stall timer or the context. A step is
-- what one of the two does; the channel of lines is a queue, whose capacity only holds steps back.
pub mod Cut
pub mod Faithful
pub mod Delivery
use ocfp.Prelude.{
  ℕ, ◌≡◌, Bool, true, false, Option, none, some, List, [], ◌∷◌, ◌++◌, Bytes, eqb, if◌then◌else◌,
}
use ocfp.Config.Validate.{is_empty}

abbrev pub newline : ℕ
newline = 10

abbrev pub onto_first : ℕ → List Bytes × Bytes → List Bytes × Bytes
onto_first c ([], rest) = ([], c ∷ rest)
onto_first c (line ∷ lines, rest) = ((c ∷ line) ∷ lines, rest)

-- the inner loop over `pending`: the complete lines without their newline, and the segment behind them
unfoldable pub cut_lines : Bytes → List Bytes × Bytes
cut_lines [] = ([], [])
cut_lines (c ∷ s) =
    let (lines, rest) = cut_lines s in
    if eqb c newline then ([] ∷ lines, rest) else onto_first c (lines, rest)

-- each line with its newline
abbrev pub unlines : List Bytes → Bytes
unlines [] = []
unlines (line ∷ lines) = line ++ newline ∷ unlines lines

-- how the reader ends: io.EOF, another error, or a context that is done while it has something to send
pub data Ending : Type 0 where
  clean broken abandoned : Ending

-- what ScanLines returns; `callback_failed` is the error of fn or of onTail
pub data Verdict : Type 0 where
  ended read_failed callback_failed stalled canceled : Verdict

-- `received` is every byte that the body has returned, and `delivered` what fn was called with
pub record Scan : Type 0 where
  pub received : Bytes
  pub pending : Bytes
  pub queue : List Bytes
  pub tail : Option Bytes
  pub ending : Option Ending
  pub delivered : List Bytes
  pub tail_delivered : Option Bytes
  pub verdict : Option Verdict
  pub is_done : Bool

abbrev pub start : Scan
start = record {
  received = [];
  pending = [];
  queue = [];
  tail = none;
  ending = none;
  delivered = [];
  tail_delivered = none;
  verdict = none;
  is_done = false;
}

-- n > 0: the bytes join the segment, and its complete lines are sent
unfoldable pub after_read : Scan → Bytes → Scan
unfolding cut_lines
after_read s chunk =
    let (lines, rest) = cut_lines (s.pending ++ chunk) in
    record s { received = s.received ++ chunk; pending = rest; queue = s.queue ++ lines }

-- err != nil: at a clean end what is left goes to the tail
unfoldable pub after_end : Scan → Ending → Scan
after_end s Ending.clean = record s {
  ending = some Ending.clean;
  tail = if is_empty s.pending then none else some s.pending;
}
after_end s e = record s { ending = some e }

-- <-ctx.Done() in the reader, at the send of a line: the line in hand is already cut off `pending`, which holds
-- the later ones and the segment; nothing reads it any more
unfoldable pub after_abandon : Scan → Bytes → List Bytes → List Bytes → Scan
unfolding cut_lines
after_abandon s chunk sent later = record s {
  received = s.received ++ chunk;
  pending = unlines later ++ (cut_lines (s.pending ++ chunk)).1;
  queue = s.queue ++ sent;
  ending = some Ending.abandoned;
}

-- <-ctx.Done() in the reader, at the send of the tail of a clean end
unfoldable pub after_drop_tail : Scan → Scan
after_drop_tail s = record s { ending = some Ending.abandoned }

unfoldable pub after_line : Scan → Bytes → List Bytes → Bool → Scan
after_line s line rest failed = record s {
  queue = rest;
  delivered = s.delivered ++ line ∷ [];
  verdict = if failed then some Verdict.callback_failed else none;
}

-- an abandoned body leaves no error behind: the caller that finds `lines` closed returns nil
abbrev pub verdict_of : Ending → Verdict
verdict_of Ending.clean = Verdict.ended
verdict_of Ending.broken = Verdict.read_failed
verdict_of Ending.abandoned = Verdict.ended

-- the channel of lines is closed and empty: the tail, then the read's error
unfoldable pub after_lines : Scan → Ending → Option Bytes → Bool → Scan
after_lines s ending none failed = record s { verdict = some (verdict_of ending) }
after_lines s ending (some t) failed = record s {
  tail_delivered = some t;
  verdict = some (if failed then Verdict.callback_failed else verdict_of ending);
}

-- `failed` says whether the callback returns an error
pub data Step : Scan → Scan → Type 0 where
  read : (s : Scan) (chunk : Bytes) → s.ending ≡ none → Step s (after_read s chunk)
  eof : (s : Scan) → s.ending ≡ none → Step s (after_end s Ending.clean)
  break : (s : Scan) → s.ending ≡ none → Step s (after_end s Ending.broken)
  abandon :
      (s : Scan) (chunk : Bytes) (sent : List Bytes) (line : Bytes) (later : List Bytes)
      → s.ending ≡ none
      → s.is_done ≡ true
      → (cut_lines (s.pending ++ chunk)).0 ≡ sent ++ line ∷ later
      → Step s (after_abandon s chunk sent later)
  drop_tail :
      (s : Scan)
      → s.ending ≡ none
      → s.is_done ≡ true
      → is_empty s.pending ≡ false
      → Step s (after_drop_tail s)
  take :
      (s : Scan) (line : Bytes) (rest : List Bytes) (failed : Bool)
      → s.verdict ≡ none
      → s.queue ≡ line ∷ rest
      → Step s (after_line s line rest failed)
  close :
      (s : Scan) (e : Ending) (failed : Bool)
      → s.verdict ≡ none
      → s.queue ≡ []
      → s.ending ≡ some e
      → Step s (after_lines s e s.tail failed)
  stall : (s : Scan) → s.verdict ≡ none → Step s (record s { verdict = some Verdict.stalled })
  finish : (s : Scan) → Step s (record s { is_done = true })
  cancel :
      (s : Scan)
      → s.verdict ≡ none
      → s.is_done ≡ true
      → Step s (record s { verdict = some Verdict.canceled })

pub data Reach (s : Scan) : Scan → Type 0 where
  here : Reach s s
  next : {t u : Scan} → Reach s t → Step t u → Reach s u
