-- ===== src/Repository/Users.antt =====
-- internal/repository/user.go
use grey_backend_assessment.Prelude.{String, Bool, false, Option, none, some, ◌==◌, str_eq, find}
use grey_backend_assessment.Domain.{Uuid, User}
use grey_backend_assessment.Session.{Session, or_not_found, ◌>>=◌, query}

-- unique_name = $1, which NULL does not satisfy
abbrev pub is_named : String → Option String → Bool
is_named name none = false
is_named name (some n) = str_eq n name

module _ {D : Type 0} where
  unfoldable pub get_by_id : Uuid → Session D User
  get_by_id id = do row ← query (λ db. find (λ u. u.id == id) db.users); or_not_found row

  unfoldable pub get_by_email : String → Session D User
  get_by_email email = do
    row ← query (λ db. find (λ u. str_eq u.email email) db.users)
    or_not_found row

  unfoldable pub get_by_unique_name : String → Session D User
  get_by_unique_name name = do
    row ← query (λ db. find (λ u. is_named name u.unique_name) db.users)
    or_not_found row
