-- ===== src/Config/Std.antt =====
-- The parts of Go's standard library whose text is not in the repository and whose whole behaviour
-- is too large to restate: path.Match, url.Parse and strings.TrimSpace are parameters of the model.
use ocfp.Prelude.{Bool, Option, Bytes}

-- What Validate reads of a *url.URL.
pub record Url : Type 0 where
  pub scheme : Bytes
  pub host : Bytes
  pub has_user : Bool
  pub raw_query : Bytes
  pub fragment : Bytes

-- `none` stands for an error: path.ErrBadPattern, or the *url.Error of a malformed text.
pub record Std : Type 0 where
  pub path_match : Bytes → Bytes → Option Bool
  pub url_parse : Bytes → Option Url
  pub trim_space : Bytes → Bytes
