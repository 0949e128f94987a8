-- ===== src/Share/Urls.antt =====
-- The addresses of links: `publicGuestUrl` and `publicTrackUrl` of apps/api/src/track-link.js.
use Prim.Native.Char.{code}
use Prim.Native.String.{[], ◌∷◌, ◌++◌}
use roadwisefleet.Prelude.{String, not, ◌&&◌, Option, none, some, eqb, if◌then◌else◌}
use roadwisefleet.Js.{Value, text}
use roadwisefleet.Share.Cuts.{is_empty}
use roadwisefleet.Share.Subjects.{id_of, is_guest_scope}

-- `s.replace(/\/+$/, '')`
unfoldable pub drop_slashes : String → String
drop_slashes [] = []
drop_slashes (c ∷ s) =
    let rest = drop_slashes s in if eqb (code c) b'/' && is_empty rest then [] else c ∷ rest

-- The base, if there is one, before a path.
unfoldable pub with_base : Value → String → String
with_base base_url path =
    let base = drop_slashes (id_of base_url) in if is_empty base then path else base ++ path

-- `encode` is the built-in `encodeURIComponent`.
module _ (encode : String → String) where
  -- `publicGuestUrl(baseUrl, scope, token)`; `none` where it throws
  unfoldable pub public_guest_url : Value → String → String → Option String
  public_guest_url base_url scope token =
      if not (is_guest_scope (text scope))
      then none
      else some (with_base base_url ("/g/" ++ (scope ++ ("/" ∷ encode token))))

  -- `publicTrackUrl(baseUrl, token)`
  unfoldable pub public_track_url : Value → String → String
  public_track_url base_url token = with_base base_url ("/track/" ++ encode token)
