-- ===== src/Config/Store.antt =====
-- internal/config/store.go: the snapshot that requests get, and the poller that swaps it. Each cycle
-- reads the file once; what the reads return is a list, `none` for one that fails. SHA-256, the
-- environment and the YAML decoder, File's own Duration included, are parameters.
pub mod Polling
use ocfp.Prelude.{
  ℕ, ◌+◌, Bool, Option, none, some, List, [], ◌∷◌, Bytes, bytes, ◌==◌, if◌then◌else◌,
}
use ocfp.Config.Std.{Std}
use ocfp.Config.Error
use ocfp.Config.Error.{ConfigError, Result}
use ocfp.Config.File.{File}
use ocfp.Config.Interpolate.{Interpolated, interpolate}
use ocfp.Config.Runtime.{Runtime, default_runtime}
use ocfp.Config.Resolve.{resolve}

pub data LoadError : Type 0 where
  unreadable malformed : LoadError
  interpolation : Interpolated → LoadError
  rejected : ConfigError → LoadError

pub data Load {ℓ} (A : Type ℓ) : Type ℓ where
  failed : LoadError → Load A
  loaded : A → Load A

-- ParseZerologLevel
pub data Level : Type 0 where
  debug_level info_level warn_level error_level : Level

unfoldable pub parse_zerolog_level : Bytes → Level
parse_zerolog_level level =
    if level == bytes "debug"
    then Level.debug_level
    else if level == bytes "warn"
    then Level.warn_level
    else if level == bytes "error"
    then Level.error_level
    else Level.info_level

-- `level` is what was last handed to zerolog.SetGlobalLevel, if anything was
pub record Store : Type 0 where
  pub cur : Runtime
  pub gen : ℕ
  pub last_hash : Bytes
  pub level : Option Level

pub record Outside : Type 0 where
  pub std : Std
  pub lookup_env : Bytes → Option Bytes
  pub unmarshal : Bytes → Option File
  pub sha256 : Bytes → Bytes

module _ (outside : Outside) where
  resolved : Result Runtime → Load Runtime
  resolved (Result.err e) = Load.failed (LoadError.rejected e)
  resolved (Result.ok rt) = Load.loaded rt

  parsed : Option File → Load Runtime
  unfolding resolved
  parsed none = Load.failed LoadError.malformed
  parsed (some f) = resolved (resolve outside.std f)

  interpolated : Interpolated → Load Runtime
  unfolding parsed
  interpolated (Interpolated.text t) = parsed (outside.unmarshal t)
  interpolated e = Load.failed (LoadError.interpolation e)

  unfoldable pub load_bytes : Bytes → Load Runtime
  unfolding interpolated
  load_bytes raw = interpolated (interpolate outside.lookup_env raw)

  -- rt.Generation = s.gen.Add(1), and the swap
  unfoldable pub swap : Store → Bytes → Runtime → Store
  swap s hash rt = record {
    cur = record rt { generation = s.gen + 1 };
    gen = s.gen + 1;
    last_hash = hash;
    level = some (parse_zerolog_level rt.log_level);
  }

  unfoldable pub accept : Store → Bytes → Load Runtime → Store
  unfolding swap
  accept s hash (Load.failed e) = s
  accept s hash (Load.loaded rt) = swap s hash rt

  unfoldable pub tick : Store → Option Bytes → Store
  tick s none = s
  tick s (some raw) =
      let hash = outside.sha256 raw in
      if hash == s.last_hash then s else accept s hash (load_bytes raw)

  unfoldable pub poll : Store → List (Option Bytes) → Store
  poll s [] = s
  poll s (read ∷ reads) = poll (tick s read) reads

  unfoldable pub started : Bytes → Load Runtime → Load Store
  started hash (Load.failed e) = Load.failed e
  started hash (Load.loaded rt) =
      Load.loaded
        record { cur = record rt { generation = 1 }; gen = 1; last_hash = hash; level = none }

  unfoldable pub new_store : Option Bytes → Load Store
  unfolding started
  new_store none = Load.failed LoadError.unreadable
  new_store (some raw) = started (outside.sha256 raw) (load_bytes raw)

-- NewDefault: no poller ever runs
unfoldable pub new_default : Store
new_default = record { cur = default_runtime; gen = 0; last_hash = []; level = none }
