-- ===== src/Tests/Streams.antt =====
-- The theorem on ScanLines, at a body of one line and a tail that ends cleanly.
use ocfp.Prelude.{refl, false, [], ◌∷◌}
use ocfp.Upstream.Lines.{
  Scan, Step, Reach, Ending, start, cut_lines, after_read, after_line, after_end, after_lines,
}
use ocfp.Upstream.Lines.Faithful.{IsFaithful}
use ocfp.Upstream.Lines.Delivery.{reach-IsFaithful}

abbrev read_once : Scan
unfolding after_read cut_lines
read_once = after_read start (97 ∷ 10 ∷ 98 ∷ [])

abbrev taken : Scan
unfolding after_line read_once
taken = after_line read_once (97 ∷ []) [] false

abbrev at_end : Scan
unfolding after_end taken
at_end = after_end taken Ending.clean

abbrev returned : Scan
unfolding after_lines at_end
returned = after_lines at_end Ending.clean at_end.tail false

run : Reach start returned
unfolding read_once taken at_end returned after_read cut_lines after_line after_end
run =
    Reach.next
      (Reach.next
        (Reach.next (Reach.next Reach.here (Step.read start (97 ∷ 10 ∷ 98 ∷ []) refl))
          (Step.take read_once (97 ∷ []) [] false refl refl))
        (Step.eof taken refl))
      (Step.close at_end Ending.clean false refl refl refl)

reach-IsFaithful_example : IsFaithful returned
reach-IsFaithful_example = reach-IsFaithful run
