-- ===== src/Services/Withdrawals/Solvency.antt =====
-- No credit account is overdrawn by a withdrawal (services/transactions/mod.rs).
use mathlib.Core.Path.{subst, sym}
use transactions.Prelude.{
  ◌≡◌, ap, ◌∙◌, not, Option, none, some, List, [], ◌∷◌, arith, Among, ◌==◌, nat_eq,
}
use transactions.Exec.{
  as_internal_state, ok, raise_if, execute_transaction, as_internal, >>=-eq-ok, pure-eq-ok,
  raise_if_state, >>=-keeps, execute_transaction_keeps, ErrorContext, ErrorKind, invalid_currency,
}
use transactions.Float.{Floats}
use transactions.Models.{currency_eq, AccountId, BlockchainAddress, Currency, AccountKind}
use transactions.Models.Records.{Account, AccountWithBalance, Transaction, CreateTransactionInput}
use transactions.Repos.{Db}
use transactions.Services.Blockchain.{BlockchainService, FeeEstimate, SameLedger, LeavesLedger}
use transactions.Services.Ledger.{create_base_tx}
use transactions.Services.Ledger.Posting.{create_base_tx-Posted}
use transactions.Services.Ledger.Solvency.{IsSolvent, posted-IsSolvent}
use transactions.Services.System.{SystemAccounts}
use transactions.Services.Withdrawals.{
  Entry, Overrides, choose_payers, send_all, fee_tx, write_entries, write_withdrawal, conclude, pay,
  unwrap_or, create_external_mono_currency_tx,
}
use transactions.Services.Withdrawals.Steps.{AllFrom, choose_payers_kept, send_all_leaves}

same-IsSolvent : (db db' : Db) → SameLedger db db' → IsSolvent db → IsSolvent db'
same-IsSolvent db db' (accounts, rows) s = record {
  holds = λ a m c. ground (arith, rows, s.holds a (subst (Among a) accounts m) c);
}

module _ (f : Floats) (system : SystemAccounts) (ids : List AccountId)
    (service : BlockchainService f) (input : CreateTransactionInput f.F64) (from_account : Account)
    (address : BlockchainAddress) (currency : Currency) (overrides : Overrides) where
  write_entries-IsSolvent :
      (es : List Entry) (db : Db) (rows : List Transaction) (db' : Db)
      → write_entries f system ids service input from_account address currency overrides es db
        ≡ (ok rows, db')
      → AllFrom f system ids service input from_account address currency overrides es
      → from_account.kind ≡ AccountKind.cr
      → IsSolvent db
      → IsSolvent db'
  unfolding write_entries
  write_entries-IsSolvent [] db rows db' h a k s = subst IsSolvent (pure-eq-ok h).1 s
  write_entries-IsSolvent (e ∷ es) db rows db' h (a, others) k s =
      let (t, d, h1, h2) = >>=-eq-ok (create_base_tx e.tx e.dr_account e.cr_account) _ db h in
      let (later, d', h3, h4) =
        >>=-eq-ok
          (write_entries f system ids service input from_account address currency overrides es) _ d
          h2 in
      subst IsSolvent (pure-eq-ok h4).1 (
        write_entries-IsSolvent es d later d' h3 others k (
          posted-IsSolvent e.tx e.dr_account e.cr_account db t d
            (create_base_tx-Posted e.tx e.dr_account e.cr_account db t d h1)
            (ap (λ (x : Account). x.kind) a ∙ k) s))

  write_withdrawal-IsSolvent :
      (fees_account : Account) (es : List Entry) (db : Db) (rows : List Transaction) (db' : Db)
      → write_withdrawal f system ids service input from_account address currency overrides
          fees_account es db
        ≡ (ok rows, db')
      → AllFrom f system ids service input from_account address currency overrides es
      → from_account.kind ≡ AccountKind.cr
      → IsSolvent db
      → IsSolvent db'
  unfolding write_withdrawal
  write_withdrawal-IsSolvent fees_account es db rows db' h a k s =
      let tx =
        fee_tx f system ids service input from_account address currency overrides fees_account in
      let (t, d, h1, h2) = >>=-eq-ok (create_base_tx tx from_account fees_account) _ db h in
      let (later, d', h3, h4) =
        >>=-eq-ok
          (write_entries f system ids service input from_account address currency overrides es) _ d
          h2 in
      subst IsSolvent (pure-eq-ok h4).1 (
        write_entries-IsSolvent es d later d' h3 a k (
          posted-IsSolvent tx from_account fees_account db t d
            (create_base_tx-Posted tx from_account fees_account db t d h1) k s))

  conclude-IsSolvent :
      (fees_account : Account) (failure : Option (ErrorContext × ErrorKind)) (es : List Entry)
      (db : Db)
      → AllFrom f system ids service input from_account address currency overrides es
      → from_account.kind ≡ AccountKind.cr
      → IsSolvent db
      → IsSolvent
          (conclude f system ids service input from_account address currency overrides fees_account
            failure es db).1
  conclude-IsSolvent fees_account none es db a k s =
      execute_transaction_keeps IsSolvent
        (write_withdrawal f system ids service input from_account address currency overrides
          fees_account es)
        db s (λ rows d e. write_withdrawal-IsSolvent fees_account es db rows d e a k s)
  conclude-IsSolvent fees_account (some (c, i)) [] db a k s = s
  conclude-IsSolvent fees_account (some (c, i)) (e ∷ es) db a k s =
      execute_transaction_keeps IsSolvent
        (write_withdrawal f system ids service input from_account address currency overrides
          fees_account (e ∷ es))
        db s (λ rows d h. write_withdrawal-IsSolvent fees_account (e ∷ es) db rows d h a k s)

  -- From a database where no credit account is overdrawn, a withdrawal from a credit account leads to
  -- such a database, whether it succeeds, fails, or stops after some of its transactions were sent,
  -- given that the blockchain service leaves the ledger alone.
  pub create_external_mono_currency_tx-IsSolvent :
      (l : LeavesLedger f service) (db : Db)
      → from_account.kind ≡ AccountKind.cr
      → IsSolvent db
      → IsSolvent
          (create_external_mono_currency_tx f system ids service input from_account address currency
            overrides db).1
  unfolding create_external_mono_currency_tx
  create_external_mono_currency_tx-IsSolvent l db k s =
      let guard =
        raise_if (not (from_account.currency == currency)) invalid_currency ErrorKind.internal in
      let fee_currency = unwrap_or overrides.fee_currency from_account.currency in
      let ask = service.estimate_withdrawal_fee input.fee fee_currency currency in
      >>=-keeps IsSolvent guard _ db (subst IsSolvent (sym (raise_if_state _ _ _ db)) s)
        (λ u d e s1.
          >>=-keeps IsSolvent (as_internal ask) _ d
            (subst IsSolvent (sym (as_internal_state ask d))
              (same-IsSolvent d (ask d).1 (l.estimate_leaves input.fee fee_currency currency d) s1))
            (λ estimate d2 e2 s2.
              let choose =
                choose_payers f system ids service input from_account address currency overrides
                  estimate in
              >>=-keeps IsSolvent (execute_transaction choose) _ d2
                (execute_transaction_keeps IsSolvent choose d2 s2 (λ r d3 e3.
                  subst IsSolvent
                    (sym (
                      choose_payers_kept f system ids service input from_account address currency
                        overrides estimate d2 r d3 e3))
                    s2))
                (λ r d3 e3 s3. paid estimate r d3 s3)))
    where
      paid :
          (estimate : FeeEstimate f.F64) (r : Account × List AccountWithBalance) (d : Db)
          → IsSolvent d
          → IsSolvent
              (pay f system ids service input from_account address currency overrides estimate r
                d).1
      paid estimate (fees_account, payers) d q =
          let (same, from) =
            send_all_leaves f system ids service input from_account address currency overrides l
              estimate.fee_price input.id payers d in
          let sent =
            send_all f system ids service input from_account address currency overrides
              estimate.fee_price input.id payers d in
          conclude-IsSolvent fees_account sent.0.failure sent.0.new_db_transactions sent.1 from k
            (same-IsSolvent d sent.1 same q)
