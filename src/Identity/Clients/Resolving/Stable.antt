-- ===== src/Identity/Clients/Resolving/Stable.antt =====
-- A conversation that names itself, or has said enough, or comes from one connection, keeps its id.
use ocfp.Prelude.{
  ℕ, ◌+◌, ◌≤◌, ◌≡◌, refl, Bool, true, false, List, Bytes, if◌then◌else◌, length, leb,
}
use ocfp.Prelude.GoMap.{Map}
use ocfp.Config.Validate.{is_empty}
use ocfp.Jsonx.{Json, Floats}
use ocfp.Identity.Cache.{Cache}
use ocfp.Identity.Cache.Stability.{Use, use_all, asks, AreSince, get_or_create-use_all}
use ocfp.Identity.Clients.{Texts, cap_len, extract_client_session_id, accumulate_assistant_text}
use ocfp.Identity.Clients.Resolving.{Stores, Draw, stored_by, stored_id, resolve_session_id_scoped}

-- what others do to a store leaves room for them and no cutoff past `now`
unfoldable pub Fits : ℕ → Cache → List Use → Type 0
Fits now c uses = AreSince now uses × (length c.entries + asks uses ≤ c.max)

pub after_uses : Stores → List Use → List Use → Stores
after_uses stores us vs = record {
  connections = use_all stores.connections us;
  assistants = use_all stores.assistants vs;
}

module _ {F : Type 0} (texts : Texts F) (floats : Floats F) where
  stored_by-after_uses :
      (long : Bool) (stores : Stores) (draw again : Draw) (text connection : Bytes)
      (us vs : List Use)
      → Fits draw.now (stored_by texts floats long stores draw text connection).0.connections us
      → Fits draw.now (stored_by texts floats long stores draw text connection).0.assistants vs
      → (stored_by texts floats long
          (after_uses (stored_by texts floats long stores draw text connection).0 us vs)
          again
          text
          connection).1
        ≡ (stored_by texts floats long stores draw text connection).1
  unfolding Fits after_uses
  stored_by-after_uses true stores draw again text connection us vs f (a, room) =
      get_or_create-use_all stores.assistants draw.now _ _ vs again.now _ a room
  stored_by-after_uses false stores draw again text connection us vs (a, room) g =
      get_or_create-use_all stores.connections draw.now _ _ us again.now _ a room

  -- A request of the same body and headers gets the same conversation id again, whatever other requests and
  -- sweeps used the two stores in between, when the requests fit under each store's cap and came no earlier and
  -- no cutoff is past the first request's time.
  pub resolve_session_id_scoped-after_uses :
      (stores : Stores) (draw again : Draw) (body : Map (Json F)) (headers : Map Bytes)
      (connection : Bytes) (us vs : List Use)
      → Fits draw.now
          (resolve_session_id_scoped texts floats stores draw body headers connection).0.connections
          us
      → Fits draw.now
          (resolve_session_id_scoped texts floats stores draw body headers connection).0.assistants
          vs
      → (resolve_session_id_scoped texts floats
          (after_uses
            (resolve_session_id_scoped texts floats stores draw body headers connection).0
            us
            vs)
          again
          body
          headers
          connection).1
        ≡ (resolve_session_id_scoped texts floats stores draw body headers connection).1
  unfolding resolve_session_id_scoped
  resolve_session_id_scoped-after_uses stores draw again body headers connection us vs =
      either (is_empty (extract_client_session_id texts floats headers body))
    where
      text : Bytes
      text = accumulate_assistant_text texts floats body

      client : Bytes
      client = extract_client_session_id texts floats headers body

      stored : Stores → Draw → Stores × Bytes
      stored s d = stored_id texts floats s d text connection

      picked : Bool → Stores → Draw → Stores × Bytes
      picked b s d = if b then stored s d else (s, client)

      either :
          (b : Bool)
          → Fits draw.now (picked b stores draw).0.connections us
          → Fits draw.now (picked b stores draw).0.assistants vs
          → (picked b (after_uses (picked b stores draw).0 us vs) again).1
            ≡ (picked b stores draw).1
      either true f g =
          stored_by-after_uses (leb cap_len (length text)) stores draw again text connection us vs f
            g
      either false f g = refl
