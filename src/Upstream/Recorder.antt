-- ===== src/Upstream/Recorder.antt =====
-- The recorder of internal/upstream/evidence.go: one request's rows, capped. Of a row it has what the
-- retry loop and the executor decide; the sanitized texts, the fingerprint, the rate-limit headers and
-- the duration, which no decision reads, are left out. A nil recorder stores nothing and is not seen.
use ocfp.Prelude.{
  ℕ, zero, suc, ◌+◌, ◌≤◌, ◌≡◌, refl, Bool, List, [], ◌∷◌, ◌++◌, Bytes, arith, leb, length,
  if◌then◌else◌,
}

pub record Row : Type 0 where
  pub phase : Bytes
  pub egress : Bytes
  pub egress_type : Bytes
  pub attempt : ℕ
  pub dial : ℕ
  pub reason : Bytes
  pub status : ℕ
  pub class : Bytes
  pub matrix_draws : ℕ
  pub retried : Bool
  pub retry_delay : ℕ
  pub in_flight : ℕ
  pub health_decision : Bytes
  pub retry_decision : Bytes

pub record Recorder : Type 0 where
  pub rows : List Row
  pub dropped : ℕ

abbrev pub new_recorder : Recorder
new_recorder = record { rows = []; dropped = 0 }

abbrev pub evidence_max_rows : ℕ
evidence_max_rows = 16

unfoldable pub append : Recorder → Row → Recorder
append r row =
    if leb evidence_max_rows (length r.rows)
    then record r { dropped = r.dropped + 1 }
    else record r { rows = r.rows ++ row ∷ [] }

annotate_rows : ℕ → (Row → Row) → List Row → List Row
annotate_rows n f [] = []
annotate_rows zero f (row ∷ rows) = f row ∷ annotate_rows zero f rows
annotate_rows (suc n) f (row ∷ rows) = row ∷ annotate_rows n f rows

unfoldable pub annotate : Recorder → ℕ → (Row → Row) → Recorder
unfolding annotate_rows
annotate r from f = record r { rows = annotate_rows from f r.rows }

annotate_row : ℕ → (Row → Row) → List Row → List Row
annotate_row n f [] = []
annotate_row zero f (row ∷ rows) = f row ∷ rows
annotate_row (suc n) f (row ∷ rows) = row ∷ annotate_row n f rows

unfoldable pub annotate_at : Recorder → ℕ → (Row → Row) → Recorder
unfolding annotate_row
annotate_at r i f = record r { rows = annotate_row i f r.rows }

length-append : (xs : List Row) (row : Row) → length (xs ++ row ∷ []) ≡ length xs + 1
length-append [] row = refl
length-append (x ∷ xs) row = omega (arith, length-append xs row)

-- However many rows arrive, none of them is lost from the sum of the stored and the dropped, and a
-- recorder within its cap stays within it.
pub append_bounded :
    (r : Recorder) (row : Row)
    → length r.rows ≤ evidence_max_rows
    → (length (append r row).rows ≤ evidence_max_rows)
      × (length (append r row).rows + (append r row).dropped ≡ length r.rows + r.dropped + 1)
unfolding append
append_bounded r row h = ground (arith, length-append r.rows row)
