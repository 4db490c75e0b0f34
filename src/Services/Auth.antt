-- ===== src/Services/Auth.antt =====
-- services/auth.rs
use transactions.Exec.{Exec, ok_or, ◌>>=◌, invalid_token, unauthorized}
use transactions.Models.{AuthenticationToken}
use transactions.Models.Records.{User}
use transactions.Repos.{Db}
use transactions.Repos.Users.{find_user_by_authentication_token}

unfoldable pub authenticate : AuthenticationToken → Exec Db User
authenticate token = do
  maybe_user ← find_user_by_authentication_token token
  ok_or invalid_token unauthorized maybe_user
