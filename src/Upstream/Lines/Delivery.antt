-- ===== src/Upstream/Lines/Delivery.antt =====
-- What fn and onTail are called with, in whatever order reader, caller, timer and context act.
use ocfp.Prelude.{
  ◌≡◌, refl, sym, ap, ◌∙◌, subst, Bool, true, false, Option, none, some, List, [], ◌∷◌, ◌++◌, Bytes,
  inl, inr,
}
use mathlib.Core.List.{append_assoc}
use ocfp.Upstream.Lines.{
  unlines, Ending, Verdict, Scan, start, after_line, after_lines, Step, Reach,
}
use ocfp.Upstream.Lines.Cut.{AreWhole}
use ocfp.Upstream.Lines.Faithful.{
  Sent, Outcome, IsFaithful, Sent-frame, after_read-IsFaithful, after_end-IsFaithful, Kept, Lost,
  after_abandon-IsFaithful, after_drop_tail-IsFaithful,
}

after_line-Outcome :
    (s : Scan) (line : Bytes) (rest : List Bytes) (failed : Bool)
    → s.tail_delivered ≡ none
    → Outcome (after_line s line rest failed).verdict (after_line s line rest failed)
unfolding after_line Outcome
after_line-Outcome s line rest true h = tt
after_line-Outcome s line rest false h = h

after_line-IsFaithful :
    (s : Scan) (line : Bytes) (rest : List Bytes) (failed : Bool)
    → s.verdict ≡ none
    → s.queue ≡ line ∷ rest
    → IsFaithful s
    → IsFaithful (after_line s line rest failed)
unfolding after_line Sent Outcome Kept
after_line-IsFaithful s line rest failed v q f =
    let same : s.delivered ++ s.queue ≡ (s.delivered ++ line ∷ []) ++ rest =
      ap (λ (t : List Bytes). s.delivered ++ t) q
      ∙ sym (append_assoc s.delivered (line ∷ []) rest) in
    let (lost, all, h) = f.kept in
    record {
      kept =
          (lost, all ∙ ap (λ (t : List Bytes). unlines t ++ (unlines lost ++ s.pending)) same, h);
      whole = subst AreWhole same f.whole;
      sent = Sent-frame s.ending s _ refl refl refl f.sent;
      outcome = after_line-Outcome s line rest failed (subst (λ x. Outcome x s) v f.outcome);
    }

-- the end of the lines, by how the reader ended and what it has sent
after_lines-Outcome :
    (s : Scan) (e : Ending) (tail : Option Bytes) (failed : Bool)
    → s.queue ≡ []
    → s.ending ≡ some e
    → s.tail ≡ tail
    → s.tail_delivered ≡ none
    → Sent (some e) s
    → Outcome (after_lines s e tail failed).verdict (after_lines s e tail failed)
unfolding after_lines Outcome Sent
after_lines-Outcome s Ending.clean none failed q d same none_yet (h, w) =
    (q, inl (record { at_end = d; whole_rest = w; same_tail = none_yet ∙ sym same ∙ h }))
after_lines-Outcome s Ending.clean (some t) true q d same none_yet (h, w) = tt
after_lines-Outcome s Ending.clean (some t) false q d same none_yet (h, w) =
    (q, inl (record { at_end = d; whole_rest = w; same_tail = sym same ∙ h }))
after_lines-Outcome s Ending.broken none failed q d same none_yet h = (q, d, none_yet)
after_lines-Outcome s Ending.broken (some t) failed q d same none_yet h = cc
after_lines-Outcome s Ending.abandoned none failed q d same none_yet (h, f) = (q, inr (d, f))
after_lines-Outcome s Ending.abandoned (some t) failed q d same none_yet (h, f) = cc

-- The return at the end of the lines reports what the reader did.
after_lines-IsFaithful :
    (s : Scan) (e : Ending) (failed : Bool)
    → s.verdict ≡ none
    → s.queue ≡ []
    → s.ending ≡ some e
    → IsFaithful s
    → IsFaithful (after_lines s e s.tail failed)
unfolding after_lines Outcome Kept
after_lines-IsFaithful s e failed v q d f =
    let none_yet : s.tail_delivered ≡ none = subst (λ x. Outcome x s) v f.outcome in
    let sent : Sent (some e) s = subst (λ x. Sent x s) d f.sent in
    frame (s.tail) refl (after_lines-Outcome s e s.tail failed q d refl none_yet sent)
  where
    frame :
        (tail : Option Bytes)
        → s.tail ≡ tail
        → Outcome (after_lines s e tail failed).verdict (after_lines s e tail failed)
        → IsFaithful (after_lines s e tail failed)
    frame none same o = record {
      kept = f.kept;
      whole = f.whole;
      sent = Sent-frame s.ending s _ refl refl refl f.sent;
      outcome = o;
    }
    frame (some t) same o = record {
      kept = f.kept;
      whole = f.whole;
      sent = Sent-frame s.ending s _ refl refl refl f.sent;
      outcome = o;
    }

done-Outcome :
    (v : Option Verdict) (s : Scan) → Outcome v s → Outcome v (record s { is_done = true })
unfolding Outcome
done-Outcome none s o = o
done-Outcome (some Verdict.ended) s (q, inl c) =
    (q, inl (record { at_end = c.at_end; whole_rest = c.whole_rest; same_tail = c.same_tail }))
done-Outcome (some Verdict.ended) s (q, inr (a, d)) = (q, inr (a, refl))
done-Outcome (some Verdict.read_failed) s o = o
done-Outcome (some Verdict.callback_failed) s o = tt
done-Outcome (some Verdict.stalled) s o = o
done-Outcome (some Verdict.canceled) s (h, d) = (h, refl)

done-Sent : (x : Option Ending) (s : Scan) → Sent x s → Sent x (record s { is_done = true })
unfolding Sent
done-Sent none s h = h
done-Sent (some Ending.clean) s h = h
done-Sent (some Ending.broken) s h = h
done-Sent (some Ending.abandoned) s (h, d) = (h, refl)

step-IsFaithful : {s t : Scan} → Step s t → IsFaithful s → IsFaithful t
unfolding Outcome Sent Kept
step-IsFaithful (Step.read s chunk e) f = after_read-IsFaithful s chunk e f
step-IsFaithful (Step.eof s e) f = after_end-IsFaithful s Ending.clean (λ p. cc) e f
step-IsFaithful (Step.break s e) f = after_end-IsFaithful s Ending.broken (λ p. cc) e f
step-IsFaithful (Step.abandon s chunk sent line later e d split) f =
    after_abandon-IsFaithful s chunk sent line later e d split f
step-IsFaithful (Step.drop_tail s e d h) f = after_drop_tail-IsFaithful s e d f
step-IsFaithful (Step.take s line rest failed v q) f =
    after_line-IsFaithful s line rest failed v q f
step-IsFaithful (Step.close s e failed v q d) f = after_lines-IsFaithful s e failed v q d f
step-IsFaithful (Step.stall s v) f = record {
  kept = f.kept;
  whole = f.whole;
  sent = Sent-frame s.ending s _ refl refl refl f.sent;
  outcome = subst (λ x. Outcome x s) v f.outcome;
}
step-IsFaithful (Step.finish s) f = record {
  kept = f.kept;
  whole = f.whole;
  sent = done-Sent s.ending s f.sent;
  outcome = done-Outcome s.verdict s f.outcome;
}
step-IsFaithful (Step.cancel s v d) f = record {
  kept = f.kept;
  whole = f.whole;
  sent = Sent-frame s.ending s _ refl refl refl f.sent;
  outcome = (subst (λ x. Outcome x s) v f.outcome, d);
}

start-IsFaithful : IsFaithful start
unfolding Sent Outcome Kept Lost
start-IsFaithful = record {
  kept = ([], refl, refl);
  whole = tt;
  sent = (refl, refl);
  outcome = refl;
}

-- However reader, caller, timer and context are interleaved from the start: the bytes that the body has
-- returned are the lines delivered so far and the lines that wait, each with its newline, and the segment
-- behind them, where a reader that the context stopped has lost one line at most, the one in hand, between
-- those that wait and what it still holds; and no line delivered or waiting holds a newline. A return of nil means a clean end of the body with no line left and the
-- segment, when it is not empty, delivered as the tail, or a context that is done; after a broken body, and at
-- a stall or a cancellation, no tail is delivered.
pub reach-IsFaithful : {s : Scan} → Reach start s → IsFaithful s
reach-IsFaithful Reach.here = start-IsFaithful
reach-IsFaithful (Reach.next r step) = step-IsFaithful step (reach-IsFaithful r)
