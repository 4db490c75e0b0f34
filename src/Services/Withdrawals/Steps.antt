-- ===== src/Services/Withdrawals/Steps.antt =====
-- What the steps of a withdrawal leave as it is (services/transactions/mod.rs).
use mathlib.Core.Path.{subst, sym}
use transactions.Prelude.{◌≡◌, refl, ◌∙◌, not, List, [], ◌∷◌, arith, All, ◌==◌, nat_eq, ltb}
use transactions.Exec.{
  as_internal_state, Result, ok, err, raise_if, ok_or, ok_or-eq-ok, as_internal, >>=-eq-ok_kept,
  pure-eq-ok, raise_if-eq-ok, ErrorKind, invalid_input, not_enough_funds, balance_overflow,
  invalid_value,
}
use transactions.Float.{Floats}
use transactions.Models.{
  currency_eq, AccountId, BlockchainAddress, BlockchainTransactionId, Currency, btc, eth, stq,
  TransactionId, next, AccountKind,
}
use transactions.Models.Records.{Account, AccountWithBalance, Amount, CreateTransactionInput}
use transactions.Amount.{checked_add}
use transactions.Repos.{Db}
use transactions.Repos.Accounts
use transactions.Repos.Balances.{get_account_balance}
use transactions.Repos.Withdrawal.{get_accounts_for_withdrawal}
use transactions.Repos.Withdrawal.Choice.{get_accounts_for_withdrawal_sound}
use transactions.Services.Blockchain.{BlockchainService, FeeEstimate, SameLedger, LeavesLedger}
use transactions.Services.System.{SystemAccounts, get_system_account, get_system_fees_account}
use transactions.Services.Withdrawals.{
  Entry, Overrides, check_payers, choose_payers, send, withdrawal_entry, after_send, send_all,
}

get_account_balance_kept :
    (id : AccountId) (k : AccountKind) (db : Db) (b : Amount) (db' : Db)
    → get_account_balance id k db ≡ (ok b, db')
    → db' ≡ db
unfolding get_account_balance
get_account_balance_kept id k db b db' h = ground arith

pub check_payers_kept :
    (total : Amount) (payers : List AccountWithBalance) (db : Db) (t : Amount) (db' : Db)
    → check_payers total payers db ≡ (ok t, db')
    → db' ≡ db
unfolding check_payers
check_payers_kept total [] db t db' h = sym (pure-eq-ok h).1
check_payers_kept total (payer ∷ rest) db t db' h =
    let (b, u, h1) =
      >>=-eq-ok_kept {P = λ b. Unit {0}} (get_account_balance payer.account.id AccountKind.dr) _ db
        (λ b d e. (tt, get_account_balance_kept payer.account.id AccountKind.dr db b d e)) h in
    let (v, c, h2) =
      >>=-eq-ok_kept (raise_if (ltb b payer.balance) not_enough_funds invalid_input) _ db
        (raise_if-eq-ok _ _ _ db) h1 in
    let (sum, e, h3) =
      >>=-eq-ok_kept (ok_or balance_overflow ErrorKind.internal (checked_add total payer.balance)) _
        db (ok_or-eq-ok _ _ _ db) h2 in
    check_payers_kept sum rest db t db' h3

pub get_system_fees_account_kept :
    (system : SystemAccounts) (c : Currency) (db : Db) (a : Account) (db' : Db)
    → as_internal (get_system_fees_account system c) db ≡ (ok a, db')
    → db' ≡ db
unfolding get_system_fees_account get_system_account Accounts.get
get_system_fees_account_kept system c db a db' h = ground arith

module _ (f : Floats) (system : SystemAccounts) (ids : List AccountId)
    (service : BlockchainService f) (input : CreateTransactionInput f.F64) (from_account : Account)
    (address : BlockchainAddress) (currency : Currency) (overrides : Overrides) where
  pub choose_payers_kept :
      (estimate : FeeEstimate f.F64) (db : Db) (r : Account × List AccountWithBalance) (db' : Db)
      → choose_payers f system ids service input from_account address currency overrides estimate db
        ≡ (ok r, db')
      → db' ≡ db
  unfolding choose_payers
  choose_payers_kept estimate db r db' h =
      let (payers, u, h1) =
        >>=-eq-ok_kept {P = λ b. Unit {0}}
          (get_accounts_for_withdrawal ids input.value currency estimate.gross_fee) _ db
          (λ taken d e. (
            tt,
            (get_accounts_for_withdrawal_sound ids currency db input.value estimate.gross_fee taken
                d e).4,
          ))
          h in
      let (total, u', h2) =
        >>=-eq-ok_kept {P = λ b. Unit {0}} (check_payers 0 payers) _ db
          (λ t d e. (tt, check_payers_kept 0 payers db t d e)) h1 in
      let (v, c, h3) =
        >>=-eq-ok_kept (raise_if (not (total == input.value)) invalid_value ErrorKind.internal) _ db
          (raise_if-eq-ok _ _ _ db) h2 in
      let (fees, u'', h4) =
        >>=-eq-ok_kept {P = λ b. Unit {0}} (as_internal (get_system_fees_account system currency)) _
          db (λ a d e. (tt, get_system_fees_account_kept system currency db a d e)) h3 in
      sym (pure-eq-ok h4).1

  -- Every row that is to be written debits the account that withdraws.
  abbrev pub AllFrom : List Entry → Type 0
  AllFrom es = All (λ (e : Entry). e.dr_account ≡ from_account) es

  send_leaves :
      (l : LeavesLedger f service) (c : Currency) (price : f.F64) (payer : AccountWithBalance)
      (db : Db)
      → SameLedger db
          (send f system ids service input from_account address currency overrides c price payer
            db).1
  unfolding send
  send_leaves l eth price payer db =
      subst (SameLedger db)
        (sym (
          as_internal_state
            (service.create_ethereum_tx payer.account.address address payer.balance price eth) db))
        (l.ethereum_leaves payer.account.address address payer.balance price eth db)
  send_leaves l stq price payer db =
      subst (SameLedger db)
        (sym (
          as_internal_state
            (service.create_ethereum_tx payer.account.address address payer.balance price stq) db))
        (l.ethereum_leaves payer.account.address address payer.balance price stq db)
  send_leaves l btc price payer db =
      subst (SameLedger db)
        (sym (
          as_internal_state
            (service.create_bitcoin_tx payer.account.address address payer.balance price) db))
        (l.bitcoin_leaves payer.account.address address payer.balance price db)

  -- The fold leaves the ledger alone, and its rows debit the account that withdraws.
  pub send_all_leaves :
      (l : LeavesLedger f service) (price : f.F64) (id : TransactionId)
      (payers : List AccountWithBalance) (db : Db)
      → SameLedger db
          (send_all f system ids service input from_account address currency overrides price id
            payers db).1
        × AllFrom
            (send_all f system ids service input from_account address currency overrides price id
              payers db).0.new_db_transactions
  unfolding send_all withdrawal_entry
  send_all_leaves l price id [] db = ((refl, refl), tt)
  send_all_leaves l price id (payer ∷ rest) db =
      step
        (send f system ids service input from_account address currency overrides currency price
          payer db)
        (send_leaves l currency price payer db) (λ d. send_all_leaves l price (next id) rest d)
    where
      step :
          (r : Result BlockchainTransactionId × Db)
          → SameLedger db r.1
          → ((d : Db)
              → SameLedger d
                  (send_all f system ids service input from_account address currency overrides price
                    (next id)
                    rest
                    d).1
                × AllFrom
                    (send_all f system ids service input from_account address currency overrides
                      price
                      (next id)
                      rest
                      d).0.new_db_transactions)
          → SameLedger db
              (after_send f system ids service input from_account address currency overrides
                (next id)
                payer
                r
                (send_all f system ids service input from_account address currency overrides price
                  (next id)
                  rest)).1
            × AllFrom
                (after_send f system ids service input from_account address currency overrides
                  (next id)
                  payer
                  r
                  (send_all f system ids service input from_account address currency overrides price
                    (next id)
                    rest)).0.new_db_transactions
      step (ok hash, d) (accounts, rows) later =
          let (same, from) = later d in ((same.0 ∙ accounts, same.1 ∙ rows), (refl, from))
      step (err c k, d) same later = (same, tt)
