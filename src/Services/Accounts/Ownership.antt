-- ===== src/Services/Accounts/Ownership.antt =====
-- Who may change an account (services/accounts.rs).
use transactions.Repos.Accounts.{found, with_id, update_rows, apply_changes, has_changes}
use Prim.Native.String.{String}
use transactions.Prelude.{inl, inr, Bool-cases, List, [], ◌∷◌, ◌||◌, ap, filter, any}
use transactions.Prelude.{
  ℕ, ◌≡◌, refl, Bool, true, false, not, Option, none, some, arith, find, ◌==◌, nat_eq,
}
use transactions.Exec.{
  Exec, Result, ok, err, pure, raise_if, ok_or, rollback, execute_transaction, ◌>>=◌, ◌>>◌,
  invalid_token, unauthorized, validation, invalid_input,
}
use transactions.Models.{AuthenticationToken, AccountId}
use transactions.Models.Records.{User, Account, UpdateAccount, Time, Transaction}
use transactions.Repos.{Db}
use transactions.Repos.Accounts
use transactions.Repos.Users.{find_user_by_authentication_token}
use transactions.Services.Auth.{authenticate}
use transactions.Services.Accounts.{
  valid_update, update_own, update_account, delete_own, delete_account,
}

-- The rows of the other accounts.
abbrev pub others : AccountId → List Account → List Account
others id = filter (λ (a : Account). not (with_id id a))

-- The row of an id was changed as asked for, and nothing else was.
pub record IsUpdated (id : AccountId) (payload : UpdateAccount) (db : Db) (a : Account) (db' : Db)
    : Type 0 where
  pub before : Account
  pub was : find (with_id id) db.accounts ≡ some before
  pub changed : a ≡ apply_changes db.now payload before
  pub same_owner : a.user_id ≡ before.user_id
  pub is : find (with_id id) db'.accounts ≡ some a
  pub others_kept : others id db'.accounts ≡ others id db.accounts
  pub rest_kept : db' ≡ record db { accounts = db'.accounts }

-- The row of an id is gone, and nothing else is.
pub record IsDeleted (id : AccountId) (db : Db) (a : Account) (db' : Db) : Type 0 where
  pub was : find (with_id id) db.accounts ≡ some a
  pub is_gone : find (with_id id) db'.accounts ≡ none
  pub others_kept : others id db'.accounts ≡ others id db.accounts
  pub rest_kept : db' ≡ record db { accounts = db'.accounts }

-- The user of the token owns the account returned, of which `P` holds; an error has changed nothing.
abbrev pub OwnedOrUnchanged :
    (Account → Db → Type 0) → AuthenticationToken → Db → Result Account × Db → Type 0
OwnedOrUnchanged P token db (ok a, db') =
    (u : User) × (find (λ (x : User). x.authentication_token == token) db.users ≡ some u)
    × (a.user_id ≡ u.id)
    × P a db'
OwnedOrUnchanged P token db (err c k, db') = db' ≡ db

abbrev IsUser : AuthenticationToken → Db → User → Type 0
IsUser token db u = find (λ (x : User). x.authentication_token == token) db.users ≡ some u

find-update_rows :
    (now : Time) (id : AccountId) (payload : UpdateAccount) (rows : List Account) (a : Account)
    → find (with_id id) (update_rows now id payload rows) ≡ some a
    → (b : Account) × (find (with_id id) rows ≡ some b) × (a ≡ apply_changes now payload b)
unfolding update_rows with_id apply_changes
find-update_rows now id payload [] a h = cc h
find-update_rows now id payload (b ∷ bs) a h = elim (Bool-cases (b.id == id)) [
  | inl e ↦ (b, rw e refl, cc (rw (e, e) at h))
  | inr e ↦
      let (x, found, changed) = find-update_rows now id payload bs a (rw (e, e) at h) in
      (x, rw e found, changed)
]

others-update_rows :
    (now : Time) (id : AccountId) (payload : UpdateAccount) (rows : List Account)
    → others id (update_rows now id payload rows) ≡ others id rows
unfolding update_rows with_id apply_changes
others-update_rows now id payload [] = refl
others-update_rows now id payload (b ∷ bs) = ground (arith, others-update_rows now id payload bs)

find-others : (id : AccountId) (rows : List Account) → find (with_id id) (others id rows) ≡ none
find-others id [] = refl
find-others id (b ∷ bs) = ground (arith, find-others id bs)

others-others : (id : AccountId) (rows : List Account) → others id (others id rows) ≡ others id rows
others-others id [] = refl
others-others id (b ∷ bs) = ground (arith, others-others id bs)

found_lem :
    (o : Option Account) (db1 db : Db) (a : Account) (db' : Db)
    → found o db1 db ≡ (ok a, db')
    → (o ≡ some a) × (db' ≡ db1)
found_lem none db1 db a db' h = cc h
found_lem (some b) db1 db a db' h = (cc h, cc h)

changed_owner :
    (now : Time) (payload : UpdateAccount) (b a : Account)
    → a ≡ apply_changes now payload b
    → a.user_id ≡ b.user_id
unfolding apply_changes
changed_owner now payload b a k = ap (λ (x : Account). x.user_id) k

update-IsUpdated :
    (id : AccountId) (payload : UpdateAccount) (db : Db) (a : Account) (db' : Db)
    → Accounts.update id payload db ≡ (ok a, db')
    → IsUpdated id payload db a db'
unfolding Accounts.update
update-IsUpdated id payload db a db' h = elim (Bool-cases (has_changes payload)) [
  | inr e ↦ cc (rw e at h)
  | inl e ↦
      let rows = update_rows db.now id payload db.accounts in
      let (f, same) =
        found_lem (find (with_id id) rows) (record db { accounts = rows }) db a db' (rw e at h) in
      let (b, was, changed) = find-update_rows db.now id payload db.accounts a f in
      record {
        before = b;
        was = was;
        changed = changed;
        same_owner = changed_owner db.now payload b a changed;
        is = rw same f;
        others_kept = rw same (others-update_rows db.now id payload db.accounts);
        rest_kept = rw same refl;
      }
]

delete-IsDeleted :
    (id : AccountId) (db : Db) (a : Account) (db' : Db)
    → Accounts.delete id db ≡ (ok a, db')
    → IsDeleted id db a db'
unfolding Accounts.delete
delete-IsDeleted id db a db' h =
    elim (Bool-cases
      (any (λ (t : Transaction). t.dr_account_id == id || t.cr_account_id == id) db.transactions)) [
        | inl e ↦ cc (rw e at h)
        | inr e ↦
            let kept = others id db.accounts in
            let (f, same) =
              found_lem (find (with_id id) db.accounts) (record db { accounts = kept }) db a db'
                (rw e at h) in
            record {
              was = f;
              is_gone = rw same (find-others id db.accounts);
              others_kept = rw same (others-others id db.accounts);
              rest_kept = rw same refl;
            }
      ]

-- A step in a database transaction, after which the owner of the account is checked.
abbrev owned_step : Exec Db Account → User → Exec Db Account
owned_step m user = do
  account ← m
  raise_if (not (account.user_id == user.id)) invalid_token unauthorized
  pure account

owned_step-OwnedOrUnchanged :
    (P : Account → Db → Type 0) (m : Exec Db Account) (token : AuthenticationToken) (user : User)
    (db : Db)
    → IsUser token db user
    → ((a : Account) (db' : Db) → m db ≡ (ok a, db') → P a db')
    → OwnedOrUnchanged P token db (execute_transaction (owned_step m user) db)
owned_step-OwnedOrUnchanged P m token user db h p = by_step (m db) refl
  where
    by_owner :
        (a : Account) (db' : Db) (o : Bool)
        → P a db'
        → (a.user_id == user.id) ≡ o
        → OwnedOrUnchanged P token db
            (rollback db ((raise_if (not o) invalid_token unauthorized >> pure a) db'))
    by_owner a db' true q e = (user, h, ground arith, q)
    by_owner a db' false q e = refl

    by_step :
        (r : Result Account × Db)
        → m db ≡ r
        → OwnedOrUnchanged P token db (rollback db (owned_step (λ d. r) user db))
    by_step (ok a, db') e = by_owner a db' (a.user_id == user.id) (p a db' e) refl
    by_step (err c k, db') e = refl

-- The user of the token is looked up first, in both operations.
as_user-OwnedOrUnchanged :
    (P : Account → Db → Type 0) (token : AuthenticationToken) (db : Db) (m : Exec Db Account)
    → ((a : Account) (db' : Db) → m db ≡ (ok a, db') → P a db')
    → OwnedOrUnchanged P token db
        ((authenticate token >>= λ user. execute_transaction (owned_step m user)) db)
unfolding authenticate find_user_by_authentication_token
as_user-OwnedOrUnchanged P token db m p =
    by_user (find (λ (x : User). x.authentication_token == token) db.users) refl
  where
    by_user :
        (o : Option User)
        → find (λ (x : User). x.authentication_token == token) db.users ≡ o
        → OwnedOrUnchanged P token db (
            (ok_or invalid_token unauthorized o >>= λ user. execute_transaction (owned_step m user))
              db)
    by_user none e = refl
    by_user (some u) e = owned_step-OwnedOrUnchanged P m token u db e p

-- To update an account and to delete one either fails and leaves the database as it is, also where
-- the row was already written before the owner was compared; or the account of the id belongs to the
-- user whose token was given, and it alone is changed as asked for, its owner kept, or is gone: the
-- rows of all other accounts and all other tables are as before.
pub update_account-OwnedOrUnchanged :
    (length : String → ℕ) (token : AuthenticationToken) (id : AccountId) (payload : UpdateAccount)
    (db : Db)
    → OwnedOrUnchanged
        (IsUpdated id payload db)
        token
        db
        (update_account length token id payload db)
      × OwnedOrUnchanged (IsDeleted id db) token db (delete_account token id db)
unfolding update_account update_own delete_account delete_own
update_account-OwnedOrUnchanged length token id payload db = (
  by_valid (valid_update length payload),
  as_user-OwnedOrUnchanged (IsDeleted id db) token db (Accounts.delete id) (delete-IsDeleted id db),
)
  where
    by_valid :
        (v : Bool)
        → OwnedOrUnchanged (IsUpdated id payload db) token db (
            (raise_if (not v) validation invalid_input
                >> (authenticate token >>= λ user.
                    execute_transaction (owned_step (Accounts.update id payload) user)))
              db)
    by_valid true =
        as_user-OwnedOrUnchanged (IsUpdated id payload db) token db (Accounts.update id payload)
          (update-IsUpdated id payload db)
    by_valid false = refl
