-- ===== src/Services/Accounts/Opening.antt =====
-- Opening an account (services/accounts.rs).
use Prim.Native.String.{String}
use transactions.Prelude.{
  ℕ, ◌≡◌, refl, Bool, true, false, not, Option, none, some, [], ◌∷◌, ◌++◌, arith, find, ◌==◌,
  nat_eq,
}
use transactions.Exec.{
  Exec, Result, ok, err, raise_if, ok_or, rollback, execute_transaction, ◌>>=◌, ◌>>◌, invalid_token,
  unauthorized, validation, invalid_input,
}
use transactions.Models.{AuthenticationToken, AccountId, BlockchainAddress}
use transactions.Models.Records.{User, Account, CreateAccount, new_account, create_debit}
use transactions.Repos.{Db}
use transactions.Repos.Accounts
use transactions.Repos.Accounts.{account_row}
use transactions.Repos.Users.{find_user_by_authentication_token}
use transactions.Services.Auth.{authenticate}
use transactions.Services.Accounts.{valid_name, create_accounts, create_account}

module _ (length : String → ℕ) (create_account_address : CreateAccount → Result BlockchainAddress)
    (token : AuthenticationToken) (debit_id : AccountId) (input : CreateAccount) (db : Db) where
  -- The user's account and the wallet behind it were added, at one address.
  abbrev pub Opened : Account → Db → Type 0
  Opened a db' =
      (address : BlockchainAddress) × (create_account_address input ≡ ok address)
      × (a ≡ account_row db (new_account input address))
      × (db' ≡ record db {
        accounts =
            (db.accounts ++ a ∷ [])
            ++ account_row db (create_debit debit_id (new_account input address)) ∷ [];
      })

  abbrev pub OpenedOrUnchanged : Result Account × Db → Type 0
  OpenedOrUnchanged (ok a, db') =
      (u : User) × (find (λ (x : User). x.authentication_token == token) db.users ≡ some u)
      × (input.user_id ≡ u.id)
      × Opened a db'
  OpenedOrUnchanged (err c k, db') = db' ≡ db

  create_accounts-Opened :
      (address : BlockchainAddress) (a : Account) (db' : Db)
      → create_accounts length create_account_address debit_id input address db ≡ (ok a, db')
      → (a ≡ account_row db (new_account input address))
        × (db' ≡ record db {
          accounts =
              (db.accounts ++ a ∷ [])
              ++ account_row db (create_debit debit_id (new_account input address)) ∷ [];
        })
  unfolding create_accounts Accounts.create account_row
  create_accounts-Opened address a db' h = ground arith

  -- The database transaction of `create_account`.
  abbrev opening : BlockchainAddress → Exec Db Account
  opening address =
      execute_transaction (create_accounts length create_account_address debit_id input address)

  abbrev asked : Exec Db BlockchainAddress
  asked d = (create_account_address input, d)

  -- To create an account either fails and leaves the database as it is, also where only the second of
  -- its two rows was refused, or adds exactly two accounts at the address that the keys service gave:
  -- the one of the user, who is the user whose token was given, and the debit account behind it.
  pub create_account-OpenedOrUnchanged :
      OpenedOrUnchanged (create_account length create_account_address token debit_id input db)
  unfolding create_account authenticate find_user_by_authentication_token
  create_account-OpenedOrUnchanged =
      by_user (find (λ (x : User). x.authentication_token == token) db.users) refl
    where
      written :
          (u : User) (address : BlockchainAddress)
          → find (λ (x : User). x.authentication_token == token) db.users ≡ some u
          → input.user_id ≡ u.id
          → create_account_address input ≡ ok address
          → (r : Result Account × Db)
          → create_accounts length create_account_address debit_id input address db ≡ r
          → OpenedOrUnchanged (rollback db r)
      written u address e o k (ok a, db') h =
          let (row, rows) = create_accounts-Opened address a db' h in
          (u, e, o, (address, k, row, rows))
      written u address e o k (err c i, db') h = refl

      by_address :
          (u : User)
          → find (λ (x : User). x.authentication_token == token) db.users ≡ some u
          → input.user_id ≡ u.id
          → (q : Result BlockchainAddress) → create_account_address input ≡ q
          → OpenedOrUnchanged (((λ d. (q, d)) >>= opening) db)
      by_address u e o (ok address) k =
          written u address e o k
            (create_accounts length create_account_address debit_id input address db) refl
      by_address u e o (err c i) k = refl

      by_checks :
          (u : User)
          → find (λ (x : User). x.authentication_token == token) db.users ≡ some u
          → (own valid : Bool) → (input.user_id == u.id) ≡ own
          → OpenedOrUnchanged (
              (raise_if (not own) invalid_token unauthorized
                  >> (raise_if (not valid) validation invalid_input >> (asked >>= opening)))
                db)
      by_checks u e true true o = by_address u e (ground arith) (create_account_address input) refl
      by_checks u e true false o = refl
      by_checks u e false valid o = refl

      by_user :
          (o : Option User)
          → find (λ (x : User). x.authentication_token == token) db.users ≡ o
          → OpenedOrUnchanged (
              (ok_or invalid_token unauthorized o >>= λ user.
              (raise_if (not (input.user_id == user.id)) invalid_token unauthorized
                >> (raise_if (not (valid_name length input.name)) validation invalid_input
                    >> (asked >>= opening))))
                db)
      by_user none e = refl
      by_user (some u) e = by_checks u e (input.user_id == u.id) (valid_name length input.name) refl
