-- ===== src/Handler/Ownership.antt =====
-- internal/handler/ownership.go: the user that the path names has to be the one who asks.
pub mod Laws
use grey_backend_assessment.Prelude.{String, Option, none, some, ◌==◌, if◌then◌else◌}
use grey_backend_assessment.Domain.{Uuid}
use grey_backend_assessment.Session.{Session}
use grey_backend_assessment.Handler.{AppError, missing_token, resource_not_found}
use grey_backend_assessment.Handler.Http.{Request, Response, HttpCodec, refuse}

pub data Owner : Type 0 where
  owner : Uuid → Owner
  not_owner : AppError → Owner

abbrev pub path_owner : Uuid → Option Uuid → Owner
path_owner auth_user_id none = not_owner resource_not_found
path_owner auth_user_id (some user_id) =
    if user_id == auth_user_id then owner user_id else not_owner resource_not_found

unfoldable pub owner_of : (String → Option Uuid) → Option Uuid → String → Owner
owner_of parse_uuid none id = not_owner missing_token
owner_of parse_uuid (some auth_user_id) id = path_owner auth_user_id (parse_uuid id)

unfoldable pub owner_from_path : (String → Option Uuid) → Request → Owner
owner_from_path parse_uuid r = owner_of parse_uuid r.user_id (r.path_value "id")

module _ {D : Type 0} (codec : HttpCodec D) where
  unfoldable pub for_owner : Owner → (Uuid → Session D Response) → Session D Response
  for_owner (not_owner e) k = refuse codec e
  for_owner (owner user_id) k = k user_id

  -- userID, appErr := ownerFromPath(r); if appErr != nil { … }
  unfoldable pub with_owner : Request → (Uuid → Session D Response) → Session D Response
  with_owner r k = for_owner (owner_from_path codec.parse_uuid r) k
