-- ===== src/Services/Users.antt =====
-- services/users.rs
pub mod Opening
use transactions.Repos.{Db}
use transactions.Models.Records.{NewUser, User}
use transactions.Models.{AuthenticationToken}
use Prim.Native.String.{String}
use transactions.Prelude.{ℕ, Bool, ◌&&◌, not, Option, leb}
use transactions.Exec.{◌>>=◌, ◌>>◌, Exec, raise_if, validation, invalid_input}
use transactions.Repos.Users

unfoldable pub find_by_token : AuthenticationToken → Exec Db (Option User)
find_by_token token = Users.find_user_by_authentication_token token

-- The length of a name as the crate validator counts it, and the length of a token in bytes.
module _ (length : String → ℕ) (token_length : AuthenticationToken → ℕ) where
  -- `Validate for AuthenticationToken`
  unfoldable pub valid_token : AuthenticationToken → Bool
  valid_token token = leb 8 (token_length token) && leb (token_length token) 30

  unfoldable pub valid_user : NewUser → Bool
  valid_user input =
      leb 1 (length input.name)
      && leb (length input.name) 40
      && valid_token input.authentication_token

  unfoldable pub create_user : NewUser → Exec Db User
  create_user input = do
    raise_if (not (valid_user input)) validation invalid_input
    Users.create input
