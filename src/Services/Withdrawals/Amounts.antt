-- ===== src/Services/Withdrawals/Amounts.antt =====
-- What a withdrawal takes from the account that withdraws (services/transactions/mod.rs).
use transactions.Services.Withdrawals.Sends.{
  send_all-HasSent, SentList, Sends_sum, entries_sum, conclude_rows, Sends, AreRowsOfWithdrawal,
  amount_sent,
}
use mathlib.Core.Path.{sym}
use transactions.Prelude.{
  ◌+◌, ◌≤◌, ◌≡◌, ap, ◌∙◌, not, none, List, arith, sum_by, ◌==◌, nat_eq, if◌then◌else◌, Option,
}
use transactions.Exec.{
  Result, ok, raise_if, raise_if-eq-ok, execute_transaction, as_internal, as_internal_state,
  >>=-eq-ok, ErrorKind, invalid_currency, ErrorContext,
}
use transactions.Float.{Floats}
use transactions.Models.{AccountId, BlockchainAddress, Currency, currency_eq}
use transactions.Models.Records.{Account, AccountWithBalance, Transaction, CreateTransactionInput}
use transactions.Repos.{Db}
use transactions.Repos.Balances.Sums.{debited}
use transactions.Repos.Withdrawal.Take.{balance_value}
use transactions.Services.Blockchain.{BlockchainService, FeeEstimate, LeavesLedger}
use transactions.Services.System.{SystemAccounts}
use transactions.Services.Withdrawals.{
  Overrides, unwrap_or, choose_payers, send_all, pay, create_external_mono_currency_tx,
}
use transactions.Services.Withdrawals.Steps.{choose_payers_kept, send_all_leaves}
use transactions.Services.Withdrawals.Sums.{
  entry_value, committed, choose_payers_sum, conclude_sums,
}

module _ (f : Floats) (system : SystemAccounts) (ids : List AccountId)
    (service : BlockchainService f) (input : CreateTransactionInput f.F64) (from_account : Account)
    (address : BlockchainAddress) (currency : Currency) (overrides : Overrides) where
  -- The calls of a withdrawal that succeeds, its rows, and what they debit.
  pub record Withdrawn (db : Db) (rows : List Transaction) (db' : Db) : Type 0 where
    pub fee_price : f.F64
    pub payers : List AccountWithBalance
    pub before : Db
    pub before_kept : before.transactions ≡ db.transactions
    pub asked : sum_by balance_value payers ≡ input.value
    pub sent : SentList
    pub failure : Option (ErrorContext × ErrorKind)
    pub after : Db
    pub sends : Sends f service address currency fee_price payers before sent failure after
    pub written :
        AreRowsOfWithdrawal f system ids service input from_account address currency overrides rows
          sent
    pub debits :
        (id : AccountId)
        → debited id db'.transactions
          ≡ debited id db.transactions
            + (if from_account.id == id then input.fee + amount_sent sent else 0)
    pub at_most : amount_sent sent ≤ input.value
    pub all_sent : failure ≡ none → amount_sent sent ≡ input.value

  -- The last step, from a database with the same rows.
  payout :
      (l : LeavesLedger f service) (db d : Db) (rows : List Transaction) (db' : Db)
      (estimate : FeeEstimate f.F64) (r : Account × List AccountWithBalance)
      → d.transactions ≡ db.transactions
      → sum_by balance_value r.1 ≡ input.value
      → pay f system ids service input from_account address currency overrides estimate r d
        ≡ (ok rows, db')
      → Withdrawn db rows db'
  payout l db d rows db' estimate (fees_account, payers) same asked h =
      let fold =
        send_all f system ids service input from_account address currency overrides
          estimate.fee_price input.id payers d in
      let (left, from) =
        send_all_leaves f system ids service input from_account address currency overrides l
          estimate.fee_price input.id payers d in
      let (sent, sends, entries) =
        send_all-HasSent f system ids service input from_account address currency overrides
          estimate.fee_price input.id payers d in
      let (bound, exact) =
        Sends_sum f service address currency estimate.fee_price payers d sent fold.0.failure fold.1
          sends in
      let (amounts, count) = entries_sum from_account fold.0.new_db_transactions sent entries in
      let sums =
        conclude_sums f system ids service input from_account address currency overrides
          fees_account fold.0.failure fold.0.new_db_transactions fold.1 rows db' h from in
      record {
        fee_price = estimate.fee_price;
        payers = payers;
        before = d;
        before_kept = same;
        asked = asked;
        sent = sent;
        failure = fold.0.failure;
        after = fold.1;
        sends = sends;
        written =
            conclude_rows f system ids service input from_account address currency overrides
              fees_account fold.0.failure fold.0.new_db_transactions sent fold.1 rows db' h entries;
        debits = λ id.
            (sums id).0
            ∙ ap
                (λ n.
                  n
                  + (if from_account.id == id
                      then input.fee + sum_by entry_value fold.0.new_db_transactions
                      else 0))
                (ap (debited id) (left.1 ∙ same))
            ∙ ap
                (λ n.
                  debited id db.transactions + (if from_account.id == id then input.fee + n else 0))
                amounts;
        at_most = omega (arith, bound, asked);
        all_sent = λ e. exact e ∙ asked;
      }

  -- When a withdrawal succeeds, the blockchain service was called for one payer after the other, up to
  -- the first call that failed, each time for what the payer pays, and the payments of all payers add
  -- up to the value asked for. There is one row for the fee and one for each call that was accepted,
  -- pending, with its hash, its payer and its amount, also where a later call failed. The rows debit
  -- the account that withdraws, and no other, by the fee and by what was sent, which is at most the
  -- value asked for, and is all of it where no call failed. This holds for a blockchain service that
  -- leaves the ledger alone.
  pub create_external_mono_currency_tx-Withdrawn :
      (l : LeavesLedger f service) (db : Db) (rows : List Transaction) (db' : Db)
      → create_external_mono_currency_tx f system ids service input from_account address currency
          overrides db
        ≡ (ok rows, db')
      → Withdrawn db rows db'
  unfolding create_external_mono_currency_tx
  create_external_mono_currency_tx-Withdrawn l db rows db' h =
      let guard =
        raise_if (not (from_account.currency == currency)) invalid_currency ErrorKind.internal in
      let fee_currency = unwrap_or overrides.fee_currency from_account.currency in
      let ask = service.estimate_withdrawal_fee input.fee fee_currency currency in
      let (u, d1, e1, h1) = >>=-eq-ok guard _ db h in
      let (estimate, d2, e2, h2) = >>=-eq-ok (as_internal ask) _ d1 h1 in
      let (r, d3, e3, h3) =
        >>=-eq-ok
          (execute_transaction (
            choose_payers f system ids service input from_account address currency overrides
              estimate))
          _ d2 h2 in
      let chosen =
        committed
          (choose_payers f system ids service input from_account address currency overrides
            estimate)
          d2 r d3 e3 in
      let left = ap (λ (x : Result (FeeEstimate f.F64) × Db). x.1.transactions) (sym e2) in
      let asked = ap (λ (d : Db). d.transactions) (as_internal_state ask d1) in
      let kept = (l.estimate_leaves input.fee fee_currency currency d1).1 in
      let first = ap (λ (d : Db). d.transactions) ((raise_if-eq-ok _ _ _ db u d1 e1).1) in
      let third =
        ap (λ (d : Db). d.transactions)
          (choose_payers_kept f system ids service input from_account address currency overrides
            estimate d2 r d3 chosen) in
      payout l db d3 rows db' estimate r (third ∙ left ∙ asked ∙ kept ∙ first)
        (choose_payers_sum f system ids service input from_account address currency overrides
          estimate d2 r d3 chosen)
        h3
