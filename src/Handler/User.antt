-- ===== src/Handler/User.antt =====
-- internal/handler/user.go: one's own profile.
use grey_backend_assessment.Domain.{User}
use grey_backend_assessment.Session.{Session}
use grey_backend_assessment.Repository.Users
use grey_backend_assessment.Handler.Http.{
  Request, Response, UserDto, user_payload, HttpCodec, respond_success, respond_with,
}
use grey_backend_assessment.Handler.Ownership.{with_owner}

abbrev pub user_dto : User → UserDto
user_dto u = record { id = u.id; email = u.email; name = u.name; unique_name = u.unique_name }

module _ {D : Type 0} (codec : HttpCodec D) where
  unfoldable pub get_by_id : Request → Session D Response
  get_by_id r = with_owner codec r λ user_id.
      respond_with codec (Users.get_by_id user_id)
        λ u. respond_success codec 200 (user_payload (user_dto u))
