-- ===== src/Services/Withdrawals/Sends.antt =====
-- What a withdrawal asks of the blockchain service, and the rows that it writes of it
-- (services/transactions/mod.rs).
use transactions.Services.Ledger.Posting.{Posted, create_base_tx-Posted}
use transactions.Services.Ledger.{create_base_tx}
use transactions.Repos.Transactions.{transaction_row}
use transactions.Repos.Withdrawal.Take.{balance_value}
use transactions.Services.Withdrawals.{
  Entry, Overrides, send_all, send, withdrawal_entry, after_send, write_withdrawal, conclude,
  write_entries, Sent, fee_tx,
}
use transactions.Repos.{Db}
use transactions.Services.Blockchain.{BlockchainService}
use transactions.Services.System.{SystemAccounts}
use transactions.Float.{Floats}
use transactions.Models.Records.{AccountWithBalance, Account, Transaction, CreateTransactionInput}
use mathlib.Core.Path.{subst, sym}
use transactions.Services.Withdrawals.Sums.{entry_value, committed}
use transactions.Prelude.{
  ℕ, suc, ◌+◌, ◌≤◌, ◌≡◌, refl, ap, ◌∙◌, Option, none, some, List, [], ◌∷◌, arith, sum_by, length,
}
use transactions.Exec.{
  ok, err, >>=-eq-ok, pure-eq-ok, Exec, Result, as_internal, ErrorContext, ErrorKind, kind_internal,
}
use transactions.Models.{
  btc, eth, stq, pending, status_eq, BlockchainTransactionId, AccountId, BlockchainAddress,
  Currency, TransactionId, next,
}

-- The payers whose transactions were sent, each with the hash of its transaction.
abbrev pub SentList : Type 0
SentList = List (AccountWithBalance × BlockchainTransactionId)

abbrev pub amount_sent : SentList → ℕ
amount_sent = sum_by (λ (s : AccountWithBalance × BlockchainTransactionId). s.0.balance)

module _ (f : Floats) (service : BlockchainService f) (address : BlockchainAddress)
    (currency : Currency) (price : f.F64) where
  -- The call for one payer: what it pays goes from its address to the address of the withdrawal.
  abbrev pub ask_to_send : Currency → AccountWithBalance → Exec Db BlockchainTransactionId
  ask_to_send btc payer =
      service.create_bitcoin_tx payer.account.address address payer.balance price
  ask_to_send eth payer =
      service.create_ethereum_tx payer.account.address address payer.balance price eth
  ask_to_send stq payer =
      service.create_ethereum_tx payer.account.address address payer.balance price stq

  -- One call for each payer in order, up to the first that fails.
  pub data Sends
      : List AccountWithBalance
        → Db
        → SentList
        → Option (ErrorContext × ErrorKind)
        → Db
        → Type 0 where
    finished : (d : Db) → Sends [] d [] none d
    refused :
        (payer : AccountWithBalance) (rest : List AccountWithBalance) (d : Db) (c : ErrorContext)
        (k : ErrorKind) (d' : Db)
        → ask_to_send currency payer d ≡ (err c k, d')
        → Sends (payer ∷ rest) d [] (some (c, ErrorKind.internal)) d'
    accepted :
        (payer : AccountWithBalance) (rest : List AccountWithBalance) (d : Db)
        (hash : BlockchainTransactionId) (d1 : Db) (later : SentList)
        (failure : Option (ErrorContext × ErrorKind)) (d' : Db)
        → ask_to_send currency payer d ≡ (ok hash, d1)
        → Sends rest d1 later failure d'
        → Sends (payer ∷ rest) d ((payer, hash) ∷ later) failure d'

  -- No more is sent than the payers were to pay, and all of it where no call failed.
  pub Sends_sum :
      (payers : List AccountWithBalance) (d : Db) (sent : SentList)
      (failure : Option (ErrorContext × ErrorKind)) (d' : Db)
      → Sends payers d sent failure d'
      → (amount_sent sent ≤ sum_by balance_value payers)
        × (failure ≡ none → amount_sent sent ≡ sum_by balance_value payers)
  Sends_sum _ _ _ _ _ (finished d) = (omega arith, λ e. refl)
  Sends_sum _ _ _ _ _ (refused payer rest d c k d' e) = (omega arith, λ n. cc n)
  Sends_sum _ _ _ _ _ (accepted payer rest d hash d1 later failure d' e s) =
      let (bound, exact) = Sends_sum rest d1 later failure d' s in
      (omega (arith, bound), λ n. ap (λ x. payer.balance + x) (exact n))

-- A row of one transaction that was sent.
abbrev IsRowOf : Account → Transaction → AccountWithBalance × BlockchainTransactionId → Type 0
IsRowOf from t s =
    (t.value ≡ s.0.balance)
    × (t.dr_account_id ≡ from.id)
    × (t.cr_account_id ≡ s.0.account.id)
    × (t.blockchain_tx_id ≡ some s.1)
    × (t.status ≡ pending)

-- One row for each transaction that was sent, in order.
abbrev pub AreRowsOf : Account → List Transaction → SentList → Type 0
AreRowsOf from [] [] = Unit
AreRowsOf from [] (s ∷ ss) = ⊥
AreRowsOf from (t ∷ ts) [] = ⊥
AreRowsOf from (t ∷ ts) (s ∷ ss) = IsRowOf from t s × AreRowsOf from ts ss

abbrev IsEntryOf : Account → Entry → AccountWithBalance × BlockchainTransactionId → Type 0
IsEntryOf from e s =
    (e.tx.value ≡ s.0.balance)
    × (e.tx.dr_account_id ≡ from.id)
    × (e.tx.cr_account_id ≡ s.0.account.id)
    × (e.tx.blockchain_tx_id ≡ some s.1)
    × (e.tx.status ≡ pending)

abbrev pub AreEntriesOf : Account → List Entry → SentList → Type 0
AreEntriesOf from [] [] = Unit
AreEntriesOf from [] (s ∷ ss) = ⊥
AreEntriesOf from (e ∷ es) [] = ⊥
AreEntriesOf from (e ∷ es) (s ∷ ss) = IsEntryOf from e s × AreEntriesOf from es ss

pub entries_sum :
    (from : Account) (es : List Entry) (sent : SentList)
    → AreEntriesOf from es sent
    → (sum_by entry_value es ≡ amount_sent sent) × (length es ≡ length sent)
entries_sum from [] [] h = (refl, refl)
entries_sum from [] (s ∷ ss) h = elim h [ ]
entries_sum from (e ∷ es) [] h = elim h [ ]
entries_sum from (e ∷ es) (s ∷ ss) (h, hs) =
    let (sums, count) = entries_sum from es ss hs in (omega (arith, h.0), ap suc count)

as_internal_parts :
    {A : Type 0} (m : Exec Db A) (d : Db) (r : Result A × Db)
    → as_internal m d ≡ r
    → ((a : A) (d' : Db) → r ≡ (ok a, d') → m d ≡ (ok a, d'))
      × ((c : ErrorContext) (k : ErrorKind) (d' : Db)
          → r ≡ (err c k, d')
          → (k' : ErrorKind) × (m d ≡ (err c k', d')) × (k ≡ ErrorKind.internal))
as_internal_parts {A = A} m d r h = go (m d) refl h
  where
    go :
        (x : Result A × Db)
        → m d ≡ x
        → kind_internal x ≡ r
        → ((a : A) (d' : Db) → r ≡ (ok a, d') → m d ≡ (ok a, d'))
          × ((c : ErrorContext) (k : ErrorKind) (d' : Db)
              → r ≡ (err c k, d')
              → (k' : ErrorKind) × (m d ≡ (err c k', d')) × (k ≡ ErrorKind.internal))
    go (ok b, e) q h = (λ a d' k. cc (q, h, k), λ c k d' z. cc (h, z))
    go (err c i, e) q h = (λ a d' k. cc (h, k), λ c' k d' z. (i, cc (q, h, z), cc (h, z)))

module _ (f : Floats) (system : SystemAccounts) (ids : List AccountId)
    (service : BlockchainService f) (input : CreateTransactionInput f.F64) (from_account : Account)
    (address : BlockchainAddress) (currency : Currency) (overrides : Overrides) where
  send_asks :
      (c : Currency) (price : f.F64) (payer : AccountWithBalance)
      → send f system ids service input from_account address currency overrides c price payer
        ≡ as_internal (ask_to_send f service address currency price c payer)
  unfolding send
  send_asks btc price payer = refl
  send_asks eth price payer = refl
  send_asks stq price payer = refl

  -- The calls that a fold has made, and its rows.
  abbrev pub HasSent : f.F64 → List AccountWithBalance → Db → Sent × Db → Type 0
  HasSent price payers d r =
      (sent : SentList) × Sends f service address currency price payers d sent r.0.failure r.1
      × AreEntriesOf from_account r.0.new_db_transactions sent

  abbrev fold : f.F64 → TransactionId → List AccountWithBalance → Db → Sent × Db
  fold = send_all f system ids service input from_account address currency overrides

  -- The fold makes these calls, and keeps a row for each that was accepted.
  pub send_all-HasSent :
      (price : f.F64) (id : TransactionId) (payers : List AccountWithBalance) (d : Db)
      → HasSent price payers d (fold price id payers d)
  unfolding send_all withdrawal_entry
  send_all-HasSent price id [] d = ([], finished d, tt)
  send_all-HasSent price id (payer ∷ rest) d =
      step
        (send f system ids service input from_account address currency overrides currency price
          payer d)
        (ap (λ (m : Exec Db BlockchainTransactionId). m d) (sym (send_asks currency price payer)))
        (λ d1. send_all-HasSent price (next id) rest d1)
    where
      step :
          (r : Result BlockchainTransactionId × Db)
          → as_internal (ask_to_send f service address currency price currency payer) d ≡ r
          → ((d1 : Db) → HasSent price rest d1 (fold price (next id) rest d1))
          → HasSent price (payer ∷ rest) d (
              after_send f system ids service input from_account address currency overrides
                (next id)
                payer
                r
                (fold price (next id) rest))
      step (ok hash, d1) e later =
          let asks = ask_to_send f service address currency price currency payer in
          let (sent, s, es) = later d1 in
          (
            (payer, hash) ∷ sent,
            accepted payer rest d hash d1 sent (fold price (next id) rest d1).0.failure
                (fold price (next id) rest d1).1
                ((as_internal_parts asks d (ok hash, d1) e).0 hash d1 refl) s,
            ((refl, refl, refl, refl, refl), es),
          )
      step (err c k, d1) e later =
          let asks = ask_to_send f service address currency price currency payer in
          let (k', said, is_internal) = (as_internal_parts asks d (err c k, d1) e).1 c k d1 refl in
          (
            [],
            subst (λ i. Sends f service address currency price (payer ∷ rest) d [] (some (c, i)) d1)
                (sym is_internal) (refused payer rest d c k' d1 said),
            tt,
          )

  posted_row :
      (e : Entry) (s : AccountWithBalance × BlockchainTransactionId) (db : Db) (t : Transaction)
      (db' : Db)
      → Posted e.tx e.dr_account e.cr_account db t db'
      → IsEntryOf from_account e s
      → IsRowOf from_account t s
  unfolding transaction_row
  posted_row e s db t db' p (v, dr, cr, hash, status) = (
    ap (λ (x : Transaction). x.value) p.row ∙ v,
    ap (λ (x : Transaction). x.dr_account_id) p.row ∙ dr,
    ap (λ (x : Transaction). x.cr_account_id) p.row ∙ cr,
    ap (λ (x : Transaction). x.blockchain_tx_id) p.row ∙ hash,
    ap (λ (x : Transaction). x.status) p.row ∙ status,
  )

  write_entries-AreRowsOf :
      (es : List Entry) (sent : SentList) (db : Db) (rows : List Transaction) (db' : Db)
      → write_entries f system ids service input from_account address currency overrides es db
        ≡ (ok rows, db')
      → AreEntriesOf from_account es sent
      → AreRowsOf from_account rows sent
  unfolding write_entries
  write_entries-AreRowsOf [] [] db rows db' h a =
      subst (λ r. AreRowsOf from_account r []) (pure-eq-ok h).0 tt
  write_entries-AreRowsOf [] (s ∷ ss) db rows db' h a = elim a [ ]
  write_entries-AreRowsOf (e ∷ es) [] db rows db' h a = elim a [ ]
  write_entries-AreRowsOf (e ∷ es) (s ∷ ss) db rows db' h (a, others) =
      let (t, d, h1, h2) = >>=-eq-ok (create_base_tx e.tx e.dr_account e.cr_account) _ db h in
      let (later, d', h3, h4) =
        >>=-eq-ok
          (write_entries f system ids service input from_account address currency overrides es) _ d
          h2 in
      let posted = create_base_tx-Posted e.tx e.dr_account e.cr_account db t d h1 in
      subst (λ r. AreRowsOf from_account r (s ∷ ss)) (pure-eq-ok h4).0
        (posted_row e s db t d posted a, write_entries-AreRowsOf es ss d later d' h3 others)

  -- The row of the fee, and the rows of what was sent.
  abbrev pub AreRowsOfWithdrawal : List Transaction → SentList → Type 0
  AreRowsOfWithdrawal rows sent =
      (fee_row : Transaction) × (later : List Transaction) × (rows ≡ fee_row ∷ later)
      × (fee_row.value ≡ input.fee)
      × AreRowsOf from_account later sent

  write_withdrawal_rows :
      (fees_account : Account) (es : List Entry) (sent : SentList) (db : Db)
      (rows : List Transaction) (db' : Db)
      → write_withdrawal f system ids service input from_account address currency overrides
          fees_account es db
        ≡ (ok rows, db')
      → AreEntriesOf from_account es sent
      → AreRowsOfWithdrawal rows sent
  unfolding write_withdrawal fee_tx transaction_row
  write_withdrawal_rows fees_account es sent db rows db' h a =
      let tx =
        fee_tx f system ids service input from_account address currency overrides fees_account in
      let (t, d, h1, h2) = >>=-eq-ok (create_base_tx tx from_account fees_account) _ db h in
      let (later, d', h3, h4) =
        >>=-eq-ok
          (write_entries f system ids service input from_account address currency overrides es) _ d
          h2 in
      let posted = create_base_tx-Posted tx from_account fees_account db t d h1 in
      (
        t,
        later,
        sym (pure-eq-ok h4).0,
        ap (λ (x : Transaction). x.value) posted.row,
        write_entries-AreRowsOf es sent d later d' h3 a,
      )

  pub conclude_rows :
      (fees_account : Account) (failure : Option (ErrorContext × ErrorKind)) (es : List Entry)
      (sent : SentList) (db : Db) (rows : List Transaction) (db' : Db)
      → conclude f system ids service input from_account address currency overrides fees_account
          failure es db
        ≡ (ok rows, db')
      → AreEntriesOf from_account es sent
      → AreRowsOfWithdrawal rows sent
  conclude_rows fees_account none es sent db rows db' h a =
      write_withdrawal_rows fees_account es sent db rows db'
        (committed
          (write_withdrawal f system ids service input from_account address currency overrides
            fees_account es)
          db rows db' h)
        a
  conclude_rows fees_account (some (c, k)) [] sent db rows db' h a = cc h
  conclude_rows fees_account (some (c, k)) (e ∷ es) sent db rows db' h a =
      write_withdrawal_rows fees_account (e ∷ es) sent db rows db'
        (committed
          (write_withdrawal f system ids service input from_account address currency overrides
            fees_account (e ∷ es))
          db rows db' h)
        a
