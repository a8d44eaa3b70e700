-- ===== src/Tests/Accounts.antt =====
-- The theorems on token accounts, over natural numbers in place of floats.
use ocfp.Prelude.{
  ℕ, ◌+◌, ◌*◌, ◌≤◌, ◌≡◌, refl, false, none, some, [], ◌∷◌, Bytes, bytes, ltb, leb, eqb, length,
  arith,
}
use Prim.Native.Nat.{max}
use ocfp.Prelude.GoMap
use ocfp.Prelude.GoMap.{Map}
use ocfp.Jsonx.{Json, read}
use ocfp.Usage.{Numbers, Parsed}
use ocfp.Usage.Accounts.{canonical, merge}
use ocfp.Usage.Accounts.Canonical.{HasFiniteCounts, AreFinite, canonical-canonical}
use ocfp.Usage.Accounts.Merged.{merged_with, read-merge}
use ocfp.Usage.Units.{utf16_len, units}
use ocfp.Usage.Units.Bounds.{IsDecoder, utf16_len-le}

abbrev numbers : Numbers ℕ
numbers = record {
  floats = record {
    zero = 0;
    one = 1;
    of_nat = λ n. n;
    is_zero = λ n. eqb n 0;
    is_nan = λ n. false;
    is_inf = λ n. false;
    lt = ltb;
    le = leb;
    add = λ n m. n + m;
    mul = λ n m. n * m;
    max = max;
    floor = λ n. n;
  };
  trim_space = λ s. s;
  parse_uint = λ s. none;
  parse_float = λ s. Parsed.malformed;
  abs = λ n. n;
  micro = 0;
  sextillion = 0;
  plain = λ n. [];
  scientific = λ n. [];
}

-- 3 tokens of prompt, 2 of them read from the cache
abbrev report : Map (Json ℕ)
report =
    (bytes "prompt_tokens", Json.number 3)
    ∷ (bytes "completion_tokens", Json.number 40)
    ∷ (bytes "cache_read_input_tokens", Json.number 2)
    ∷ []

canonical-canonical_example :
    canonical numbers (canonical numbers (some report)) ≡ canonical numbers (some report)
unfolding HasFiniteCounts AreFinite
canonical-canonical_example =
    canonical-canonical numbers report ((refl, refl, refl, refl), refl) refl

read-merge_example :
    (m : Map (Json ℕ)) × (merge numbers
        (some report)
        (some ((bytes "prompt_tokens", Json.number 9) ∷ []))
      ≡ some m)
    × (read m (bytes "prompt_tokens")
        ≡ merged_with numbers
            (read report (bytes "prompt_tokens"))
            (GoMap.get (bytes "prompt_tokens") ((bytes "prompt_tokens", Json.number 9) ∷ [])))
unfolding GoMap.get
read-merge_example =
    read-merge numbers report ((bytes "prompt_tokens", Json.number 9) ∷ []) (bytes "prompt_tokens")
      (refl, tt)

-- every byte is a rune
abbrev decode : Bytes → ℕ × ℕ
decode s = (97, 1)

decoder : IsDecoder decode
unfolding IsDecoder
decoder c s = (omega arith, omega arith, λ h. absurd (omega (arith, h)))

utf16_len-le_example :
    (utf16_len decode (bytes "ab") ≤ length (bytes "ab"))
    × (units decode 7 (bytes "ab") ≡ utf16_len decode (bytes "ab"))
utf16_len-le_example = utf16_len-le decode decoder (bytes "ab") 7 (omega arith)
