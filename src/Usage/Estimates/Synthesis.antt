-- ===== src/Usage/Estimates/Synthesis.antt =====
-- Synthesized thinking touches one count of one details object.
use ocfp.Prelude.{◌≡◌, false, Bytes, bytes, ◌==◌}
use ocfp.Prelude.GoMap
use ocfp.Prelude.GoMap.{Map, get-put}
use ocfp.Jsonx.{Json, read, get}
use ocfp.Usage.{Numbers}

module _ {F : Type 0} (numbers : Numbers F) where
  abbrev pub thinking : Bytes
  thinking = bytes "reasoning_tokens"

  -- `m` is `u` with the share in the details
  pub IsShared : Bytes → F → Map (Json F) → Map (Json F) → Type 0
  IsShared key share u m =
      (get (read m key) thinking ≡ Json.number share)
      × ((i : Bytes) → thinking == i ≡ false → get (read m key) i ≡ get (read u key) i)
      × ((j : Bytes) → key == j ≡ false → read m j ≡ read u j)
