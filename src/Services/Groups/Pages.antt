-- ===== src/Services/Groups/Pages.antt =====
-- services/transactions/mod.rs: what a reader is shown, and who may read it.
use transactions.Repos.Listing.Contents.{IsPageOf, list_groups-IsPageOf}
use transactions.Services.Converter.Reading.{convert_transaction-ReadsOnly}
use transactions.Repos.Accounts.{with_id}
use transactions.Services.Groups.Order.{
  IsNewestFirst, newest_first-IsNewestFirst, count-newest_first,
}
use transactions.Services.Payments.Solvency.{authenticate-eq-ok, authenticate-ReadsOnly}
use mathlib.Core.Path.{subst}
use transactions.Services.Groups.Partition.{
  rows_with_gid, IsOrderOfEntries, HasDistinctKeys, group_of, groups_from_partition,
}
use transactions.Services.Converter.{convert_transaction}
use transactions.Services.Auth.{authenticate}
use transactions.Repos.Listing.{
  list_groups_for_account_skip_approval, list_groups_for_user_skip_approval, list_groups,
  is_approval,
}
use transactions.Repos.{Db}
use transactions.Exec.Reading.{ReadsOnly, >>=-ReadsOnly}
use transactions.Models.Records.{Transaction, User, TransactionOut, Account}
use transactions.Services.Groups.{
  get_transaction, convert_groups, show_row, show_groups, get_transactions_for_user,
  get_account_transactions, group_transactions, newest_first, values, groups_from,
}
use transactions.Models.{
  AuthenticationToken, AccountId, UserId, TransactionId, TransactionGroupKind, group_kind_eq,
}
use transactions.Prelude.{
  ℕ, Bool, not, ◌≡◌, refl, Option, none, some, List, [], ◌∷◌, arith, find, ◌==◌, nat_eq, ◌&&◌, ◌&&◌,
  ◌||◌, ◌||◌, ◌∙◌, count,
}
use transactions.Exec.{
  ok, >>=-eq-ok_kept, pure-eq-ok, raise_if, >>=-eq-ok, ok_or, invalid_token, unauthorized,
  no_account, raise_if-eq-ok, not_found, ok_or-eq-ok,
}
use transactions.Repos.Accounts
use transactions.Repos.Transactions

-- The user of a token.
abbrev pub IsUserOf : AuthenticationToken → Db → User → Type 0
IsUserOf token db user = find (λ (u : User). u.authentication_token == token) db.users ≡ some user

convert_groups-ReadsOnly : (gs : List (List Transaction)) → ReadsOnly (convert_groups gs)
unfolding convert_groups
convert_groups-ReadsOnly [] = λ d. refl
convert_groups-ReadsOnly (g ∷ gs) =
    >>=-ReadsOnly (convert_transaction g) _ (convert_transaction-ReadsOnly g)
      (λ t. >>=-ReadsOnly (convert_groups gs) _ (convert_groups-ReadsOnly gs) (λ ts d. refl))

-- Each group was converted, in order.
abbrev pub AreConversions :
    Db → List (TransactionId × List Transaction) → List TransactionOut → Type 0
AreConversions db [] [] = Unit
AreConversions db [] (t ∷ ts) = ⊥
AreConversions db (g ∷ gs) [] = ⊥
AreConversions db (g ∷ gs) (t ∷ ts) =
    (convert_transaction g.1 db ≡ (ok t, db)) × AreConversions db gs ts

-- What is shown of a list of rows: there is one group for each `gid` among them, of all its rows; each
-- group is converted; and what is shown is the conversions, each as often, the newest first.
pub record Shown (db : Db) (rows : List Transaction) (shown : List TransactionOut) : Type 0 where
  pub groups : List (TransactionId × List Transaction)
  pub distinct : HasDistinctKeys groups
  pub all_groups : (gid : TransactionId) → group_of gid groups ≡ rows_with_gid gid rows
  pub converted : List TransactionOut
  pub conversions : AreConversions db groups converted
  pub ordered : IsNewestFirst shown
  pub same : (p : TransactionOut → Bool) → count p shown ≡ count p converted

-- A page of the groups of a user, and of an account of the user; approvals are left out.
abbrev pub ShownToUser : AuthenticationToken → UserId → ℕ → ℕ → Db → List TransactionOut → Type 0
ShownToUser token user_id offset limit db shown =
    (user : User) × (rows : List Transaction) × IsUserOf token db user
    × (user.id ≡ user_id)
    × IsPageOf (λ t. not (t.group_kind == TransactionGroupKind.approval) && t.user_id == user_id)
        offset limit db rows
    × Shown db rows shown

abbrev pub ShownToOwner :
    AuthenticationToken → AccountId → ℕ → ℕ → Db → List TransactionOut → Type 0
ShownToOwner token account_id offset limit db shown =
    (user : User) × (account : Account) × (rows : List Transaction) × IsUserOf token db user
    × (find (λ (a : Account). a.id == account_id) db.accounts ≡ some account)
    × (account.user_id ≡ user.id)
    × IsPageOf
        (λ t.
          not (t.group_kind == TransactionGroupKind.approval)
          && (t.dr_account_id == account_id || t.cr_account_id == account_id))
        offset limit db rows
    × Shown db rows shown

convert_groups_each :
    (gs : List (TransactionId × List Transaction)) (db : Db) (ts : List TransactionOut)
    → convert_groups (values gs) db ≡ (ok ts, db)
    → AreConversions db gs ts
unfolding convert_groups
convert_groups_each [] db [] h = tt
convert_groups_each [] db (t ∷ ts) h = cc h
convert_groups_each (g ∷ gs) db ts h =
    let (t, d, e, h1) = >>=-eq-ok (convert_transaction g.1) _ db h in
    let same : d ≡ db = cc (convert_transaction-ReadsOnly g.1 db, e) in
    let (ts', d', e', h2) = >>=-eq-ok (convert_groups (values gs)) _ d h1 in
    let same' : d' ≡ d = cc (convert_groups-ReadsOnly (values gs) d, e') in
    subst (AreConversions db (g ∷ gs)) (pure-eq-ok h2).0
      (cc (e, same), convert_groups_each gs db ts' (cc (e', same, same')))

authenticate_lem :
    (token : AuthenticationToken) (db : Db) (user : User) (db' : Db)
    → authenticate token db ≡ (ok user, db')
    → IsUserOf token db user × (db' ≡ db)
authenticate_lem token db user db' h =
    (authenticate-eq-ok token db user db' h, cc (authenticate-ReadsOnly token db, h))

module _
    (hash_order : List (TransactionId × List Transaction) → List (TransactionId × List Transaction))
    (in_order : IsOrderOfEntries hash_order) where
  show_groups-Shown :
      (rows : List Transaction) (db : Db) (shown : List TransactionOut) (db' : Db)
      → show_groups hash_order rows db ≡ (ok shown, db')
      → (db' ≡ db) × Shown db rows shown
  unfolding show_groups group_transactions
  show_groups-Shown rows db shown db' h =
      let gs = hash_order (groups_from [] rows) in
      let (res, d, e, h1) = >>=-eq-ok (convert_groups (values gs)) _ db h in
      let same : d ≡ db = cc (convert_groups-ReadsOnly (values gs) db, e) in
      let shows : newest_first res ≡ shown = (pure-eq-ok h1).0 in
      let (distinct, all) = groups_from_partition rows in
      let (distinct', all') = in_order (groups_from [] rows) distinct in
      (
        cc (h1, same),
        record {
          groups = gs;
          distinct = distinct';
          all_groups = λ gid. all' gid ∙ all gid;
          converted = res;
          conversions = convert_groups_each gs db res (cc (e, same));
          ordered = subst IsNewestFirst shows (newest_first-IsNewestFirst res);
          same = λ p. cc (count-newest_first p res, shows);
        },
      )

  -- When a page of payments of a user is shown, the token is that user's. The page has no more groups
  -- than the limit, each with a row of the user that is not of an approval, and all rows of these
  -- groups; a first page that is not full has every such group. What is shown is the conversion of
  -- each group, once, the newest first, in whatever order a map gives its entries. Nothing is changed.
  pub get_transactions_for_user-Shown :
      (token : AuthenticationToken) (user_id : UserId) (offset limit : ℕ) (db : Db)
      (shown : List TransactionOut) (db' : Db)
      → get_transactions_for_user hash_order token user_id offset limit db ≡ (ok shown, db')
      → (db' ≡ db) × ShownToUser token user_id offset limit db shown
  unfolding get_transactions_for_user list_groups_for_user_skip_approval
  get_transactions_for_user-Shown token user_id offset limit db shown db' h =
      let (user, u, h1) = >>=-eq-ok_kept (authenticate token) _ db (authenticate_lem token db) h in
      let (tt', same, h2) =
        >>=-eq-ok_kept (raise_if (not (user_id == user.id)) invalid_token unauthorized) _ db
          (raise_if-eq-ok (not (user_id == user.id)) invalid_token unauthorized db) h1 in
      let chosen = λ (t : Transaction). not (is_approval t) && t.user_id == user_id in
      let (rows, p, h3) =
        >>=-eq-ok_kept (list_groups chosen offset limit) _ db
          (λ r d e. let (k, q) = list_groups-IsPageOf chosen offset limit db r d e in (q, k)) h2 in
      let (d, s) = show_groups-Shown rows db shown db' h3 in
      (d, (user, rows, u, ground arith, p, s))

  -- When a page of payments of an account is shown, the account is there and the token is its owner's.
  -- The page has no more groups than the limit, each with a row that debits or credits the account and
  -- is not of an approval, and all rows of these groups; a first page that is not full has every such
  -- group. What is shown is the conversion of each group, once, the newest first, in whatever order a
  -- map gives its entries. Nothing is changed.
  pub get_account_transactions-Shown :
      (token : AuthenticationToken) (account_id : AccountId) (offset limit : ℕ) (db : Db)
      (shown : List TransactionOut) (db' : Db)
      → get_account_transactions hash_order token account_id offset limit db ≡ (ok shown, db')
      → (db' ≡ db) × ShownToOwner token account_id offset limit db shown
  unfolding get_account_transactions list_groups_for_account_skip_approval Accounts.get with_id
  get_account_transactions-Shown token account_id offset limit db shown db' h =
      let (user, u, h1) = >>=-eq-ok_kept (authenticate token) _ db (authenticate_lem token db) h in
      let o = find (λ (a : Account). a.id == account_id) db.accounts in
      let (account, a, h2) =
        >>=-eq-ok_kept (ok_or no_account not_found o) _ db (ok_or-eq-ok no_account not_found o db)
          h1 in
      let (tt', same, h3) =
        >>=-eq-ok_kept (raise_if (not (account.user_id == user.id)) invalid_token unauthorized) _ db
          (raise_if-eq-ok (not (account.user_id == user.id)) invalid_token unauthorized db) h2 in
      let chosen = λ (t : Transaction).
        not (is_approval t) && (t.dr_account_id == account_id || t.cr_account_id == account_id) in
      let (rows, p, h4) =
        >>=-eq-ok_kept (list_groups chosen offset limit) _ db
          (λ r d e. let (k, q) = list_groups-IsPageOf chosen offset limit db r d e in (q, k)) h3 in
      let (d, s) = show_groups-Shown rows db shown db' h4 in
      (d, (user, account, rows, u, a, ground arith, p, s))

-- The payment that a reader asked for by the id of a row.
abbrev pub ShownRow : AuthenticationToken → TransactionId → Db → Option TransactionOut → Type 0
ShownRow token id db none = find (λ (t : Transaction). t.id == id) db.transactions ≡ none
ShownRow token id db (some tx) =
    (user : User) × (t : Transaction) × IsUserOf token db user
    × (find (λ (t : Transaction). t.id == id) db.transactions ≡ some t)
    × (t.user_id ≡ user.id)
    × (convert_transaction (rows_with_gid t.gid db.transactions) db ≡ (ok tx, db))

show_row-ShownRow :
    (token : AuthenticationToken) (id : TransactionId) (user : User) (db : Db)
    (o : Option Transaction) (shown : Option TransactionOut) (db' : Db)
    → IsUserOf token db user
    → find (λ (t : Transaction). t.id == id) db.transactions ≡ o
    → show_row user o db ≡ (ok shown, db')
    → (db' ≡ db) × ShownRow token id db shown
unfolding show_row Transactions.get_by_gid
show_row-ShownRow token id user db none shown db' u e h =
    let (k, same) = pure-eq-ok h in (cc same, subst (ShownRow token id db) k e)
show_row-ShownRow token id user db (some t) shown db' u e h =
    let (tt', same, h1) =
      >>=-eq-ok_kept (raise_if (not (t.user_id == user.id)) invalid_token unauthorized) _ db
        (raise_if-eq-ok (not (t.user_id == user.id)) invalid_token unauthorized db) h in
    let group = rows_with_gid t.gid db.transactions in
    let (tx, d, c, h2) = >>=-eq-ok (convert_transaction group) _ db h1 in
    let kept : d ≡ db = cc (convert_transaction-ReadsOnly group db, c) in
    let (k, s) = pure-eq-ok h2 in
    (cc (s, kept), subst (ShownRow token id db) k (user, t, u, e, ground arith, cc (c, kept)))

-- When the payment of a row is read, either there is no such row, or the row is the user's of the
-- token and what is shown is all rows of its group; nothing is changed.
pub get_transaction-ShownRow :
    (token : AuthenticationToken) (id : TransactionId) (db : Db) (shown : Option TransactionOut)
    (db' : Db)
    → get_transaction token id db ≡ (ok shown, db')
    → (db' ≡ db) × ShownRow token id db shown
unfolding get_transaction Transactions.get
get_transaction-ShownRow token id db shown db' h =
    let (user, u, h1) = >>=-eq-ok_kept (authenticate token) _ db (authenticate_lem token db) h in
    show_row-ShownRow token id user db (find (λ (t : Transaction). t.id == id) db.transactions)
      shown db' u refl h1
