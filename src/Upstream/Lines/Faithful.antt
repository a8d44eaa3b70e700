-- ===== src/Upstream/Lines/Faithful.antt =====
-- What holds of ScanLines at any moment, and that the steps of its reader keep it.
use ocfp.Prelude.{
  ◌≡◌, ◌≢◌, ◌⊎◌, refl, sym, ap, ◌∙◌, subst, true, false, Option, none, some, List, [], ◌∷◌, ◌++◌,
  Bytes, ◌≤◌, length, arith, if◌then◌else◌, inl, inr,
}
use mathlib.Core.List.{append_assoc}
use ocfp.Config.Validate.{is_empty}
use ocfp.Upstream.Lines.{
  unlines, after_abandon, after_drop_tail, cut_lines, Ending, Verdict, Scan, after_read, after_end,
}
use ocfp.Upstream.Lines.Cut.{
  has_newline, unlines-append, cut_lines_join, AreWhole, AreWhole-join, AreWhole-prefix, AreCut,
  cut_lines-AreCut,
}

abbrev pub residual : Bytes → Option Bytes
residual rest = if is_empty rest then none else some rest

-- the tail that the reader has sent, by how it ended
unfoldable pub Sent : Option Ending → Scan → Type 0
Sent none s = (s.tail ≡ none) × (has_newline s.pending ≡ false)
Sent (some Ending.clean) s = (s.tail ≡ residual s.pending) × (has_newline s.pending ≡ false)
Sent (some Ending.broken) s = s.tail ≡ none
Sent (some Ending.abandoned) s = (s.tail ≡ none) × (s.is_done ≡ true)

-- what a clean end means
pub record IsComplete (s : Scan) : Type 0 where
  pub at_end : s.ending ≡ some Ending.clean
  pub whole_rest : has_newline s.pending ≡ false
  pub same_tail : s.tail_delivered ≡ residual s.pending

-- what a return means: nil is a body that was delivered to its end, or a context that is done
unfoldable pub Outcome : Option Verdict → Scan → Type 0
Outcome (some Verdict.ended) s =
    (s.queue ≡ []) × (IsComplete s ⊎ ((s.ending ≡ some Ending.abandoned) × (s.is_done ≡ true)))
Outcome (some Verdict.read_failed) s =
    (s.queue ≡ []) × (s.ending ≡ some Ending.broken) × (s.tail_delivered ≡ none)
Outcome (some Verdict.callback_failed) s = Unit
Outcome (some Verdict.canceled) s = (s.tail_delivered ≡ none) × (s.is_done ≡ true)
Outcome (some Verdict.stalled) s = s.tail_delivered ≡ none
Outcome none s = s.tail_delivered ≡ none

-- the lines that a reader has cut off and never sent: only an abandoned one has such a line, and one at most
unfoldable pub Lost : Option Ending → List Bytes → Type 0
Lost none lost = lost ≡ []
Lost (some Ending.clean) lost = lost ≡ []
Lost (some Ending.broken) lost = lost ≡ []
Lost (some Ending.abandoned) lost = length lost ≤ 1

-- The bytes that were read are the lines that were delivered, those that wait, the line that was lost, where
-- one was, and what the reader still holds.
unfoldable pub Kept : Option Ending → Scan → Type 0
Kept ending s =
    (lost : List Bytes) × (s.received
      ≡ unlines (s.delivered ++ s.queue) ++ (unlines lost ++ s.pending))
    × Lost ending lost

pub record IsFaithful (s : Scan) : Type 0 where
  pub kept : Kept s.ending s
  pub whole : AreWhole (s.delivered ++ s.queue)
  pub sent : Sent s.ending s
  pub outcome : Outcome s.verdict s

pub Sent-frame :
    (x : Option Ending) (s t : Scan)
    → s.tail ≡ t.tail
    → s.pending ≡ t.pending
    → s.is_done ≡ t.is_done
    → Sent x s
    → Sent x t
unfolding Sent
Sent-frame none s t a b c (h, w) = (sym a ∙ h, sym (ap has_newline b) ∙ w)
Sent-frame (some Ending.clean) s t a b c (h, w) =
    (sym a ∙ h ∙ ap residual b, sym (ap has_newline b) ∙ w)
Sent-frame (some Ending.broken) s t a b c h = sym a ∙ h
Sent-frame (some Ending.abandoned) s t a b c (h, d) = (sym a ∙ h, sym c ∙ d)

kept_all :
    (s : Scan)
    → s.ending ≡ none
    → IsFaithful s
    → s.received ≡ unlines (s.delivered ++ s.queue) ++ s.pending
unfolding Kept Lost
kept_all s e f =
    let (lost, same, h) = subst (λ x. Kept x s) e f.kept in
    same ∙ ap (λ (t : List Bytes). unlines (s.delivered ++ s.queue) ++ (unlines t ++ s.pending)) h

kept-append :
    (d q lines : List Bytes) (received pending chunk rest : Bytes)
    → received ≡ unlines (d ++ q) ++ pending
    → unlines lines ++ rest ≡ pending ++ chunk
    → received ++ chunk ≡ unlines (d ++ (q ++ lines)) ++ rest
kept-append d q lines received pending chunk rest k j =
    ap (λ (t : Bytes). t ++ chunk) k
    ∙ append_assoc (unlines (d ++ q)) pending chunk
    ∙ ap (λ (t : Bytes). unlines (d ++ q) ++ t) (sym j)
    ∙ sym (append_assoc (unlines (d ++ q)) (unlines lines) rest)
    ∙ ap (λ (t : Bytes). t ++ rest) (sym (unlines-append (d ++ q) lines))
    ∙ ap (λ (t : List Bytes). unlines t ++ rest) (append_assoc d q lines)

AreWhole-append :
    (d q lines : List Bytes) → AreWhole (d ++ q) → AreWhole lines → AreWhole (d ++ (q ++ lines))
AreWhole-append d q lines w v =
    subst AreWhole (append_assoc d q lines) (AreWhole-join (d ++ q) lines w v)

-- While the reader has not ended, the caller has not returned for a reason that the reader gave.
Outcome-ending :
    (v : Option Verdict) (s t : Scan)
    → s.ending ≡ none
    → Outcome v s
    → s.tail_delivered ≡ t.tail_delivered
    → s.is_done ≡ t.is_done
    → Outcome v t
unfolding Outcome
Outcome-ending none s t e o h d = sym h ∙ o
Outcome-ending (some Verdict.ended) s t e (q, inl c) h d = cc
Outcome-ending (some Verdict.ended) s t e (q, inr (c, f)) h d = cc
Outcome-ending (some Verdict.read_failed) s t e (q, c, f) h d = cc
Outcome-ending (some Verdict.callback_failed) s t e o h d = tt
Outcome-ending (some Verdict.stalled) s t e o h d = sym h ∙ o
Outcome-ending (some Verdict.canceled) s t e (o, f) h d = (sym h ∙ o, sym d ∙ f)

pub after_read-IsFaithful :
    (s : Scan) (chunk : Bytes) → s.ending ≡ none → IsFaithful s → IsFaithful (after_read s chunk)
unfolding after_read Sent AreCut Kept Lost
after_read-IsFaithful s chunk e f =
    let cut = cut_lines-AreCut (s.pending ++ chunk) in
    record {
      kept = (
        [],
        kept-append s.delivered s.queue _ s.received s.pending chunk _ (kept_all s e f)
            (cut_lines_join (s.pending ++ chunk)),
        rw e refl,
      );
      whole = AreWhole-append s.delivered s.queue _ f.whole cut.0;
      sent = rw e ((subst (λ x. Sent x s) e f.sent).0, cut.1);
      outcome = Outcome-ending s.verdict s _ e f.outcome refl refl;
    }

pub after_end-IsFaithful :
    (s : Scan) (e : Ending)
    → e ≢ Ending.abandoned
    → s.ending ≡ none
    → IsFaithful s
    → IsFaithful (after_end s e)
unfolding after_end Sent Kept Lost
after_end-IsFaithful s Ending.clean n e f = record {
  kept = ([], kept_all s e f, refl);
  whole = f.whole;
  sent = (refl, (subst (λ x. Sent x s) e f.sent).1);
  outcome = Outcome-ending s.verdict s _ e f.outcome refl refl;
}
after_end-IsFaithful s Ending.broken n e f = record {
  kept = ([], kept_all s e f, refl);
  whole = f.whole;
  sent = (subst (λ x. Sent x s) e f.sent).0;
  outcome = Outcome-ending s.verdict s _ e f.outcome refl refl;
}
after_end-IsFaithful s Ending.abandoned n e f = absurd (n refl)

pub after_abandon-IsFaithful :
    (s : Scan) (chunk : Bytes) (sent : List Bytes) (line : Bytes) (later : List Bytes)
    → s.ending ≡ none
    → s.is_done ≡ true
    → (cut_lines (s.pending ++ chunk)).0 ≡ sent ++ line ∷ later
    → IsFaithful s
    → IsFaithful (after_abandon s chunk sent later)
unfolding after_abandon Sent AreCut Kept Lost
after_abandon-IsFaithful s chunk sent line later e d split f =
    let rest = (cut_lines (s.pending ++ chunk)).1 in
    let in_hand : unlines (line ∷ []) ++ (unlines later ++ rest) ≡ unlines (line ∷ later) ++ rest =
      sym (append_assoc (unlines (line ∷ [])) (unlines later) rest)
      ∙ ap (λ (t : Bytes). t ++ rest) (sym (unlines-append (line ∷ []) later)) in
    let same : unlines sent ++ (unlines (line ∷ []) ++ (unlines later ++ rest))
        ≡ s.pending ++ chunk =
      ap (λ (t : Bytes). unlines sent ++ t) in_hand
      ∙ sym (append_assoc (unlines sent) (unlines (line ∷ later)) rest)
      ∙ ap (λ (t : Bytes). t ++ rest) (sym (unlines-append sent (line ∷ later)))
      ∙ ap (λ (t : List Bytes). unlines t ++ rest) (sym split)
      ∙ cut_lines_join (s.pending ++ chunk) in
    record {
      kept = (
        line ∷ [],
        kept-append s.delivered s.queue sent s.received s.pending chunk _ (kept_all s e f) same,
        omega arith,
      );
      whole = AreWhole-append s.delivered s.queue sent f.whole (
          AreWhole-prefix sent (line ∷ later)
            (subst AreWhole split (cut_lines-AreCut (s.pending ++ chunk)).0));
      sent = ((subst (λ x. Sent x s) e f.sent).0, d);
      outcome = Outcome-ending s.verdict s _ e f.outcome refl refl;
    }

pub after_drop_tail-IsFaithful :
    (s : Scan) → s.ending ≡ none → s.is_done ≡ true → IsFaithful s → IsFaithful (after_drop_tail s)
unfolding after_drop_tail Sent Kept Lost
after_drop_tail-IsFaithful s e d f = record {
  kept = ([], kept_all s e f, omega arith);
  whole = f.whole;
  sent = ((subst (λ x. Sent x s) e f.sent).0, d);
  outcome = Outcome-ending s.verdict s _ e f.outcome refl refl;
}
