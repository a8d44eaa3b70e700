-- ===== src/Tests/Stores.antt =====
-- The theorems on the configuration store and on interpolation, at the document of the samples.
use ocfp.Prelude.{◌+◌, ◌≡◌, refl, Option, none, some, List, [], ◌∷◌, Bytes, bytes}
use ocfp.Config.File.{File}
use ocfp.Config.Resolve.{resolve, snapshot}
use ocfp.Config.Interpolate.{interpolate, interpolate_from}
use ocfp.Config.Interpolate.Segments.{Segment, render, meaning, interpolate-render}
use ocfp.Config.Store.{Store, Load, Outside, load_bytes, new_store, poll}
use ocfp.Config.Store.Polling.{Shows, latest, swaps, poll-latest}
use ocfp.Tests.Samples.{std, doc, rt, doc_accepted}

abbrev lookup_env : Bytes → Option Bytes
lookup_env name = some (bytes "v")

-- "a${X}"
abbrev segments : List Segment
segments = Segment.literal (bytes "a") ∷ Segment.variable (bytes "X") ∷ []

interpolate-render_example : interpolate lookup_env (render segments) ≡ meaning lookup_env segments
interpolate-render_example = interpolate-render lookup_env segments (refl, ((refl, refl), tt))

abbrev unmarshal : Bytes → Option File
unmarshal text = some doc

abbrev outside : Outside
outside = record {
  std = std;
  lookup_env = lookup_env;
  unmarshal = unmarshal;
  sha256 = λ text. text;
}

abbrev started_store : Store
started_store = record { cur = record rt { generation = 1 }; gen = 1; last_hash = []; level = none }

starts : new_store outside (some []) ≡ Load.loaded started_store
unfolding new_store load_bytes interpolate resolve interpolate_from snapshot
starts = rw doc_accepted refl

poll-latest_example :
    Shows outside
      (poll outside started_store (none ∷ some (bytes "x") ∷ []))
      (latest outside [] (none ∷ some (bytes "x") ∷ []))
    × ((poll outside started_store (none ∷ some (bytes "x") ∷ [])).gen
        ≡ 1 + swaps outside [] (none ∷ some (bytes "x") ∷ []))
poll-latest_example =
    poll-latest outside [] (none ∷ some (bytes "x") ∷ []) starts ((λ same. same), tt)
