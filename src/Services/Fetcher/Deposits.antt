-- ===== src/Services/Fetcher/Deposits.antt =====
-- What a deposit writes to the ledger (services/rabbit.rs).
use transactions.Services.Fetcher.Violations.{
  verify_deposit_tx, handle_violation, deposit_address_internal, InvariantViolation,
}
use transactions.Services.Fetcher.Rounds.{needs_approval_state}
use transactions.Services.Fetcher.Settling.{Handled}
use transactions.Repos.Transactions.{transaction_row}
use mathlib.Core.Path.{sym, subst}
use transactions.Exec.{
  ok, >>=-eq-ok, ok_or, missing_address_in_tx, internal, ok_or-eq-ok, no_account, pure-eq-ok,
  Result,
}
use transactions.Repos.Seen.{create_seen, create_strange}
use transactions.Repos.Blockchain.{create_blockchain}
use transactions.Services.Fetcher.Depositing.{
  record_once, deposit_to, entry_for, deposit_tx, deposit_loop, needs_approval, handle_deposit,
  address_of, handle_matched, deposit_unless,
}
use transactions.Repos.{Db}
use transactions.Models.{
  AccountId, TransactionId, AccountKind, TransactionStatus, account_kind_eq, currency_eq,
  BlockchainAddress, Currency,
}
use transactions.Models.Records.{
  Account, NewTransaction, BlockchainTransaction, Transaction, BlockchainTransactionEntryTo,
}
use transactions.Repos.Transactions
use transactions.Repos.Accounts
use transactions.Prelude.{
  true, false, ◌==◌, nat_eq, ◌&&◌, ◌++◌, refl, inl, inr, List, [], ◌∷◌, Option, ◌≡◌, find, Bool,
  ◌==◌, some, ◌&&◌, arith, nat_eq, ◌∙◌, ap, map, ◌⊎◌, filter, ◌⊎◌, ◌≢◌, any, ◌≢◌,
}
use mathlib.Core.List.{append_assoc, append-nil}

-- The credit account with the address and the currency of a wallet.
abbrev pub counterpart : Account → List Account → Option Account
counterpart a accounts =
    find (λ b. b.address == a.address && b.kind == AccountKind.cr && b.currency == a.currency)
      accounts

-- A row pays what the first output to the wallet's address holds, from the wallet to the account of
-- its user.
pub record Deposited (t : BlockchainTransaction) (a : Account) (row : Transaction)
    (accounts : List Account) : Type 0 where
  pub to_entry : BlockchainTransactionEntryTo
  pub to_cr_account : Account
  pub entry : entry_for a.address t ≡ some to_entry
  pub found : counterpart a accounts ≡ some to_cr_account
  pub debits_wallet : row.dr_account_id ≡ a.id
  pub credits_user : row.cr_account_id ≡ to_cr_account.id
  pub pays : row.value ≡ to_entry.value
  pub is_done : row.status ≡ TransactionStatus.done
  pub names : row.blockchain_tx_id ≡ some t.hash

-- One row for each wallet, in order.
abbrev pub RowsFor : BlockchainTransaction → List Account → List Account → List Transaction → Type 0
RowsFor t table [] [] = Unit
RowsFor t table [] (r ∷ rs) = ⊥
RowsFor t table (a ∷ rest) [] = ⊥
RowsFor t table (a ∷ rest) (r ∷ rs) = Deposited t a r table × RowsFor t table rest rs

-- The rows are written at the end, and the accounts are as before.
abbrev pub Appends : Db → List Transaction → Db → Type 0
Appends db rows db' = (db'.transactions ≡ db.transactions ++ rows) × (db'.accounts ≡ db.accounts)

record_once_ledger :
    (b : Bool) (t : BlockchainTransaction) (d : Db) → Appends d [] (record_once b t d).1
unfolding record_once create_blockchain create_seen
record_once_ledger false t d = (sym (append-nil d.transactions), refl)
record_once_ledger true t d = ground (arith, append-nil d.transactions)

create-Appends :
    (x : NewTransaction) (d : Db) (r : Transaction) (d' : Db)
    → Transactions.create x d ≡ (ok r, d')
    → (r ≡ transaction_row d x) × Appends d (r ∷ []) d'
unfolding Transactions.create
create-Appends x d r d' h = ground arith

row_is_deposit :
    (generated : AccountId → TransactionId) (t : BlockchainTransaction) (a c : Account)
    (entry : BlockchainTransactionEntryTo) (d : Db) (r : Transaction)
    → entry_for a.address t ≡ some entry
    → counterpart a d.accounts ≡ some c
    → r ≡ transaction_row d (deposit_tx generated t entry a c)
    → Deposited t a r d.accounts
unfolding transaction_row deposit_tx
row_is_deposit generated t a c entry d r has_entry has_c e = record {
  to_entry = entry;
  to_cr_account = c;
  entry = has_entry;
  found = has_c;
  debits_wallet = rw e refl;
  credits_user = rw e refl;
  pays = rw e refl;
  is_done = rw e refl;
  names = rw e refl;
}

Appends-then_same :
    (a b c : Db) (rows : List Transaction) → Appends a rows b → Appends b [] c → Appends a rows c
Appends-then_same a b c rows (h, k) (h', k') = (h' ∙ append-nil b.transactions ∙ h, k' ∙ k)

Appends-both :
    (a b c : Db) (r : Transaction) (rows : List Transaction)
    → Appends a (r ∷ []) b
    → Appends b rows c
    → Appends a (r ∷ rows) c
Appends-both a b c r rows (h, k) (h', k') =
    (h' ∙ ap (λ l. l ++ rows) h ∙ append_assoc a.transactions (r ∷ []) rows, k' ∙ k)

module _ (generated : AccountId → TransactionId) (t : BlockchainTransaction) where
  deposit_to-Deposited :
      (first : Bool) (a : Account) (d : Db) (r : Transaction) (d' : Db)
      → deposit_to generated first t a d ≡ (ok r, d')
      → Deposited t a r d.accounts × Appends d (r ∷ []) d'
  unfolding deposit_to Accounts.get_by_address
  deposit_to-Deposited first a d r d' h =
      let (entry, d1, e1, h1) =
        >>=-eq-ok (ok_or missing_address_in_tx internal (entry_for a.address t)) _ d h in
      let (has_entry, s1) = ok_or-eq-ok _ _ (entry_for a.address t) d entry d1 e1 in
      let (c, d2, e2, h2) =
        >>=-eq-ok (ok_or no_account internal (counterpart a d1.accounts)) _ d1 h1 in
      let (has_c, s2) = ok_or-eq-ok _ _ (counterpart a d1.accounts) d1 c d2 e2 in
      let (row, d3, e3, h3) =
        >>=-eq-ok (Transactions.create (deposit_tx generated t entry a c)) _ d2 h2 in
      let (is_row, appended) = create-Appends (deposit_tx generated t entry a c) d2 row d3 e3 in
      let (u, d4, e4, h4) = >>=-eq-ok (record_once first t) _ d3 h3 in
      let (same_row, same_db) = pure-eq-ok h4 in
      let left =
        subst (Appends d3 []) (ap (λ (x : Result Unit × Db). x.1) e4 ∙ same_db)
          (record_once_ledger first t d3) in
      let here = s2 ∙ s1 in
      let whole = Appends-then_same d2 d3 d' (row ∷ []) appended left in
      (
        row_is_deposit generated t a c entry d r has_entry
            (subst (λ x. counterpart a x.accounts ≡ some c) s1 has_c)
            (sym same_row
              ∙ subst (λ x. row ≡ transaction_row x (deposit_tx generated t entry a c)) here
                  is_row),
        subst (λ x. Appends d (x ∷ []) d') same_row
            (subst (λ x. Appends x (row ∷ []) d') here whole),
      )

  deposit_loop-RowsFor :
      (first : Bool) (accounts : List Account) (d : Db) (out : Handled) (d' : Db)
      → deposit_loop generated first t accounts d ≡ (ok out, d')
      → RowsFor t d.accounts accounts out.0 × Appends d out.0 d'
  unfolding deposit_loop
  deposit_loop-RowsFor first [] d out d' h =
      let (o, same) = pure-eq-ok h in rw (← o, ← same) (tt, (sym (append-nil d.transactions), refl))
  deposit_loop-RowsFor first (a ∷ rest) d out d' h =
      let (row, d1, e1, h1) = >>=-eq-ok (deposit_to generated first t a) _ d h in
      let (need, d2, e2, h2) = >>=-eq-ok (needs_approval a) _ d1 h1 in
      let (later, d3, e3, h3) = >>=-eq-ok (deposit_loop generated false t rest) _ d2 h2 in
      let (deposited, appended) = deposit_to-Deposited first a d row d1 e1 in
      let (rows, last) = deposit_loop-RowsFor false rest d2 later d3 e3 in
      let same = sym (needs_approval_state a d1) ∙ ap (λ (x : Result Bool × Db). x.1) e2 in
      let (o, e) = pure-eq-ok h3 in
      let accounts : d2.accounts ≡ d.accounts =
        sym (ap (λ (x : Db). x.accounts) same) ∙ appended.1 in
      let whole =
        Appends-both d d1 d3 row later.0 appended
          (subst (λ x. Appends x later.0 d3) (sym same) last) in
      subst (λ (x : Handled). RowsFor t d.accounts (a ∷ rest) x.0 × Appends d x.0 d') o
        (
          (deposited, subst (λ x. RowsFor t x rest later.0) accounts rows),
          subst (Appends d (row ∷ later.0)) e whole,
        )

  -- The wallets, debit accounts of a currency, that have one of the addresses.
  abbrev pub wallets_at : List BlockchainAddress → Currency → Db → List Account
  wallets_at addresses currency db =
      filter
        (λ a.
          any (λ x. a.address == x) addresses && a.kind == AccountKind.dr && a.currency == currency)
        db.accounts

  -- Nothing is booked if no wallet is paid, or a wallet pays; else one row for each wallet.
  abbrev pub Booked : BlockchainTransaction → Db → List Transaction → Db → Type 0
  Booked n db rows db' =
      let paid = wallets_at (map (address_of generated) n.to) t.currency db in
      let payers = wallets_at n.from n.currency db in
      ((rows ≡ []) × Appends db [] db' × ((paid ≡ []) ⊎ (payers ≢ [])))
      ⊎ ((payers ≡ []) × RowsFor t db.accounts paid rows × Appends db rows db')

  unpaid :
      (n : BlockchainTransaction) (db : Db) (out : Handled) (db' : Db)
      → handle_matched generated t n [] db ≡ (ok out, db')
      → (out.0 ≡ []) × Appends db [] db'
  unfolding handle_matched create_seen
  unpaid n db out db' h = ground (arith, append-nil db.transactions)

  violated :
      (v : InvariantViolation) (db : Db) (out : Handled) (db' : Db)
      → deposit_unless generated t [] (some v) db ≡ (ok out, db')
      → (out.0 ≡ []) × Appends db [] db'
  unfolding deposit_unless handle_violation create_strange create_seen
  violated v db out db' h = ground (arith, append-nil db.transactions)

  by_payers :
      (n : BlockchainTransaction) (a : Account) (rest : List Account) (db : Db) (out : Handled)
      (db' : Db) (payers : List Account)
      → wallets_at n.from n.currency db ≡ payers
      → handle_matched generated t n (a ∷ rest) db ≡ (ok out, db')
      → ((out.0 ≡ []) × Appends db [] db' × (payers ≢ []))
        ⊎ ((payers ≡ []) × RowsFor t db.accounts (a ∷ rest) out.0 × Appends db out.0 db')
  unfolding handle_matched verify_deposit_tx Accounts.get_by_addresses deposit_unless
  by_payers n a rest db out db' [] e h =
      let (rows, appends) = deposit_loop-RowsFor true (a ∷ rest) db out db' (rw e at h) in
      inr (refl, rows, appends)
  by_payers n a rest db out db' (p ∷ ps) e h =
      let (none_out, same) = violated deposit_address_internal db out db' (rw e at h) in
      inl (none_out, same, λ q. cc q)

  -- A transaction that others sent, where handling it succeeds. Nothing is booked where no wallet is
  -- paid, or where one of ours is among the senders. Else one row is added for each wallet that is
  -- paid, in order: it is done, names the transaction, and moves from the wallet to the credit account
  -- of the same address what the first output to that address in the transaction holds. The accounts
  -- stay as they are.
  pub handle_deposit-Booked :
      (n : BlockchainTransaction) (db : Db) (out : Handled) (db' : Db)
      → handle_deposit generated t n db ≡ (ok out, db')
      → Booked n db out.0 db'
  unfolding handle_deposit Accounts.get_by_addresses
  handle_deposit-Booked n db out db' h =
      by_wallets (wallets_at (map (address_of generated) n.to) t.currency db) refl h
    where
      by_wallets :
          (paid : List Account)
          → wallets_at (map (address_of generated) n.to) t.currency db ≡ paid
          → handle_matched generated t n paid db ≡ (ok out, db')
          → Booked n db out.0 db'
      by_wallets [] e k = let (no_rows, same) = unpaid n db out db' k in inl (no_rows, same, inl e)
      by_wallets (a ∷ rest) e k = elim (by_payers n a rest db out db' _ refl k) [
        | inl (no_rows, same, p) ↦ inl (no_rows, same, inr p)
        | inr (p, rows, appends) ↦ inr (p, rw e rows, appends)
      ]
