-- ===== src/Repos/Users.antt =====
-- repos/users.rs, the queries of the modelled services.
use transactions.Prelude.{
  Bool, ◌||◌, not, if◌then◌else◌, [], ◌∷◌, ◌++◌, any, Option, find, ◌==◌, nat_eq, List, filter,
}
use transactions.Exec.{Exec, ok, err, database, invalid_input}
use transactions.Models.{UserId, AuthenticationToken}
use transactions.Models.Records.{User, NewUser}
use transactions.Repos.{Db}

unfoldable pub find_user_by_authentication_token : AuthenticationToken → Exec Db (Option User)
find_user_by_authentication_token token db =
    (ok (find (λ u. u.authentication_token == token) db.users), db)

unfoldable pub get : UserId → Exec Db (Option User)
get id db = (ok (find (λ u. u.id == id) db.users), db)

-- The ids and the tokens are unique: the primary key, and an index of the table.
unfoldable pub is_taken : NewUser → User → Bool
is_taken payload u = u.id == payload.id || u.authentication_token == payload.authentication_token

unfoldable pub user_row : Db → NewUser → User
user_row db payload = record {
  id = payload.id;
  name = payload.name;
  authentication_token = payload.authentication_token;
  created_at = db.now;
  updated_at = db.now;
}

unfoldable pub create : NewUser → Exec Db User
unfolding is_taken user_row
create payload db =
    if any (is_taken payload) db.users
    then (err database invalid_input, db)
    else (ok (user_row db payload), record db { users = db.users ++ user_row db payload ∷ [] })

-- All but the system's own user.
unfoldable pub get_all : UserId → Exec Db (List User)
get_all system_user_id db = (ok (filter (λ (u : User). not (u.id == system_user_id)) db.users), db)
