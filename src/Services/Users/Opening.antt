-- ===== src/Services/Users/Opening.antt =====
-- services/users.rs, services/auth.rs: a new user is known by the token.
use transactions.Services.Auth.{authenticate}
use transactions.Repos.{Db}
use transactions.Services.Users.{create_user, valid_user, valid_token}
use transactions.Models.Records.{NewUser, User}
use transactions.Models.{AuthenticationToken}
use transactions.Repos.Users.{is_taken, user_row}
use Prim.Native.String.{String}
use transactions.Prelude.{
  ℕ, false, ◌≡◌, ◌≤◌, refl, inl, inr, List, [], ◌∷◌, ◌++◌, arith, ◌==◌, nat_eq, any,
  find-append_one, Bool-cases,
}
use transactions.Exec.{ok, err, Result}
use transactions.Repos.Users

not_taken :
    (input : NewUser) (us : List User)
    → any (is_taken input) us ≡ false
    → any (λ (u : User). u.authentication_token == input.authentication_token) us ≡ false
unfolding is_taken
not_taken input [] h = refl
not_taken input (u ∷ us) h = ground (arith, not_taken input us)

module _ (length : String → ℕ) (token_length : AuthenticationToken → ℕ) where
  -- What a registration leaves: a user that the token finds, behind all others, or nothing.
  abbrev pub RegisteredOrUnchanged : NewUser → Db → Result User × Db → Type 0
  RegisteredOrUnchanged input db (ok user, db') =
      (db' ≡ record db { users = db.users ++ user ∷ [] })
      × (user.id ≡ input.id)
      × (user.name ≡ input.name)
      × (8 ≤ token_length input.authentication_token)
      × (token_length input.authentication_token ≤ 30)
      × (authenticate input.authentication_token db' ≡ (ok user, db'))
  RegisteredOrUnchanged input db (err c k, db') = db' ≡ db

  -- When a user is registered, the row is written behind the others, the token is between 8 and 30
  -- bytes long, and a request with that token is authenticated as this user; when a registration
  -- fails, nothing is changed.
  pub create_user-RegisteredOrUnchanged :
      (input : NewUser) (db : Db)
      → RegisteredOrUnchanged input db (create_user length token_length input db)
  unfolding create_user valid_user valid_token Users.create is_taken user_row authenticate
      Users.find_user_by_authentication_token
  create_user-RegisteredOrUnchanged input db =
      elim (Bool-cases (valid_user length token_length input)) [
        | inr e ↦ rw e refl
        | inl e ↦ rw e (elim (Bool-cases (any (is_taken input) db.users)) [
          | inl k ↦ rw k refl
          | inr k ↦ rw k (
            refl,
            refl,
            refl,
            ground arith,
            ground arith,
            rw
                (find-append_one
                  (λ (u : User). u.authentication_token == input.authentication_token) db.users
                  (user_row db input) (not_taken input db.users k) (ground arith))
                refl,
          )
        ])
      ]
