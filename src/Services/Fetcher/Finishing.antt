-- ===== src/Services/Fetcher/Finishing.antt =====
-- The end of a withdrawal: when it waits, when it is put aside, and what is written when it is done
-- (services/rabbit.rs).
use transactions.Services.Fetcher.Broken.{verify_withdrawal_tx-Breaks, Breaks}
use transactions.Services.Fetcher.Settled.{
  Verified, verify_withdrawal_tx-Verified, verify_withdrawal_tx_state,
}
use transactions.Services.Fetcher.Confirmations.{required_confirmations}
use transactions.Float.{Floats}
use mathlib.Core.Path.{sym, subst}
use transactions.Exec.{ok, ◌>>◌, ◌>>◌, >>=-eq-ok, pure-eq-ok, Result}
use transactions.Repos.Transactions.{set_status, transaction_row}
use transactions.Repos.{Db}
use transactions.Models.Normalization.{value}
use transactions.Models.{
  BlockchainTransactionId, TransactionStatus, AccountId, TransactionId, Currency,
}
use transactions.Repos.Seen.{create_seen, create_strange}
use transactions.Services.Fetcher.Violations.{
  handle_violation, InvariantViolation, message_of, verify_withdrawal_tx,
}
use transactions.Models.Records.{
  NewTransaction, BlockchainTransaction, Transaction, SeenHash, PendingBlockchainTransaction,
  seen_of, Amount, Account, strange_of, stored_blockchain,
}
use transactions.Services.Fetcher.Settling.{
  get_fees_account_dr, Handled, finish_withdrawal, blockchain_fee_tx, nothing, fees_currency,
  handle_withdrawal, settle_withdrawal,
}
use transactions.Repos.Blockchain.{delete_pending, create_blockchain, has_pending_hash}
use transactions.Services.System.{
  SystemAccounts, get_system_fees_account_dr, get_system_account, get_system_fees_account,
}
use transactions.Repos.Transactions
use transactions.Repos.Accounts
use transactions.Prelude.{
  refl, inl, inr, [], ◌∷◌, nat_eq, ◌++◌, some, none, not, Option, ◌≡◌, ◌≡◌, arith, filter, ap, ◌<◌,
  ◌<◌, ◌∙◌, ◌⊎◌, ◌⊎◌, ◌≤◌, ◌≤◌, ltb, Option-cases, Bool-cases, ltb→lt,
}

-- The withdrawal is done: every row of its hash is, the fee of the blockchain is written, and the
-- pending row is gone.
pub record Finished (t : BlockchainTransaction) (tx : Transaction) (db db' : Db) : Type 0 where
  pub fee_row : Transaction
  pub rows :
      db'.transactions
      ≡ set_status db.now t.hash TransactionStatus.done db.transactions ++ fee_row ∷ []
  pub fee : fee_row.value ≡ t.fee
  pub fee_group : fee_row.gid ≡ tx.gid
  pub fee_is_done : fee_row.status ≡ TransactionStatus.done
  pub accounts : db'.accounts ≡ db.accounts
  pub pending_gone :
      db'.pending_blockchain_transactions
      ≡ filter (λ p. not (has_pending_hash t.hash p)) db.pending_blockchain_transactions
  pub stored : db'.blockchain_transactions ≡ db.blockchain_transactions ++ stored_blockchain t ∷ []
  pub seen : db'.seen_hashes ≡ db.seen_hashes ++ seen_of t ∷ []

-- The transaction breaks an invariant: it is put aside with the text of that violation, and the ledger
-- is left alone.
pub record PutAside (t n : BlockchainTransaction) (tx : Transaction) (db db' : Db) : Type 0 where
  pub violation : InvariantViolation
  pub broken : Breaks tx n db violation
  pub state : db' ≡ record db {
    strange_blockchain_transactions =
        db.strange_blockchain_transactions ++ strange_of t (message_of violation) ∷ [];
    seen_hashes = db.seen_hashes ++ seen_of t ∷ [];
  }

put_aside :
    (v : InvariantViolation) (t n : BlockchainTransaction) (tx : Transaction) (db : Db)
    (out : Handled) (db' : Db)
    → Breaks tx n db v
    → (handle_violation v t >> nothing) db ≡ (ok out, db')
    → (out ≡ ([], [])) × PutAside t n tx db db'
unfolding handle_violation create_strange create_seen
put_aside v t n tx db out db' b h =
    (ground arith, record { violation = v; broken = b; state = ground arith })

create_blockchain_lem :
    (t b : BlockchainTransaction) (d d' : Db)
    → create_blockchain t d ≡ (ok b, d')
    → d'
      ≡ record d { blockchain_transactions = d.blockchain_transactions ++ stored_blockchain t ∷ [] }
unfolding create_blockchain
create_blockchain_lem t b d d' h = ground arith

delete_pending_lem :
    (hash : BlockchainTransactionId) (p : Option PendingBlockchainTransaction) (d d' : Db)
    → delete_pending hash d ≡ (ok p, d')
    → d' ≡ record d {
      pending_blockchain_transactions =
          filter (λ p. not (has_pending_hash hash p)) d.pending_blockchain_transactions;
    }
unfolding delete_pending
delete_pending_lem hash p d d' h = ground arith

update_status_lem :
    (hash : BlockchainTransactionId) (s : TransactionStatus) (x : Transaction) (d d' : Db)
    → Transactions.update_status hash s d ≡ (ok x, d')
    → d' ≡ record d { transactions = set_status d.now hash s d.transactions }
unfolding Transactions.update_status
update_status_lem hash s x d d' h = ground arith

create_lem :
    (x : NewTransaction) (r : Transaction) (d d' : Db)
    → Transactions.create x d ≡ (ok r, d')
    → (r ≡ transaction_row d x)
      × (d' ≡ record d { transactions = d.transactions ++ transaction_row d x ∷ [] })
unfolding Transactions.create
create_lem x r d d' h = ground arith

create_seen_lem :
    (x s : SeenHash) (d d' : Db)
    → create_seen x d ≡ (ok s, d')
    → d' ≡ record d { seen_hashes = d.seen_hashes ++ x ∷ [] }
unfolding create_seen
create_seen_lem x s d d' h = ground arith

fees_account_dr_state :
    (system : SystemAccounts) (generated : AccountId → TransactionId) (c : Currency)
    (tx : Transaction) (d : Db)
    → (get_fees_account_dr system generated c tx d).1 ≡ d
unfolding get_fees_account_dr get_system_fees_account_dr get_system_account Accounts.get
fees_account_dr_state system generated Currency.btc tx d = ground arith
fees_account_dr_state system generated Currency.eth tx d = ground arith
fees_account_dr_state system generated Currency.stq tx d = ground arith

-- The tables that the steps write, from the first to the last.
get_system_fees_account_state :
    (system : SystemAccounts) (c : Currency) (d : Db) → (get_system_fees_account system c d).1 ≡ d
unfolding get_system_fees_account get_system_account Accounts.get
get_system_fees_account_state system c d = ground arith

finished_state :
    (t : BlockchainTransaction) (fee : NewTransaction) (db d1 d2 d3 d4 d5 d6 d7 db' : Db)
    → d1 ≡ db
    → d2 ≡ d1
    → d3 ≡ record d2 {
      blockchain_transactions = d2.blockchain_transactions ++ stored_blockchain t ∷ [];
    }
    → d4 ≡ record d3 {
      pending_blockchain_transactions =
          filter (λ p. not (has_pending_hash t.hash p)) d3.pending_blockchain_transactions;
    }
    → d5
      ≡ record d4 { transactions = set_status d4.now t.hash TransactionStatus.done d4.transactions }
    → d6 ≡ record d5 { transactions = d5.transactions ++ transaction_row d5 fee ∷ [] }
    → d7 ≡ record d6 { seen_hashes = d6.seen_hashes ++ seen_of t ∷ [] }
    → d7 ≡ db'
    → db' ≡ record db {
      blockchain_transactions = db.blockchain_transactions ++ stored_blockchain t ∷ [];
      pending_blockchain_transactions =
          filter (λ p. not (has_pending_hash t.hash p)) db.pending_blockchain_transactions;
      transactions =
          set_status db.now t.hash TransactionStatus.done db.transactions
          ++ transaction_row db fee ∷ [];
      seen_hashes = db.seen_hashes ++ seen_of t ∷ [];
    }
unfolding transaction_row
finished_state t fee db d1 d2 d3 d4 d5 d6 d7 db' q1 q2 q3 q4 q5 q6 q7 q8 = cc

module _ (system : SystemAccounts) (generated : AccountId → TransactionId) where
  finish_withdrawal-Finished :
      (t : BlockchainTransaction) (tx : Transaction) (db : Db) (out : Handled) (db' : Db)
      → finish_withdrawal system generated t tx db ≡ (ok out, db')
      → (out ≡ ([], [])) × Finished t tx db db'
  unfolding finish_withdrawal blockchain_fee_tx transaction_row
  finish_withdrawal-Finished t tx db out db' h =
      let (dr_account, d1, e1, h1) =
        >>=-eq-ok (get_fees_account_dr system generated t.currency tx) _ db h in
      let (cr_account, d2, e2, h2) =
        >>=-eq-ok (get_system_fees_account system (fees_currency t.currency)) _ d1 h1 in
      let (b, d3, e3, h3) = >>=-eq-ok (create_blockchain t) _ d2 h2 in
      let (p, d4, e4, h4) = >>=-eq-ok (delete_pending t.hash) _ d3 h3 in
      let (x, d5, e5, h5) =
        >>=-eq-ok (Transactions.update_status t.hash TransactionStatus.done) _ d4 h4 in
      let fee_tx = blockchain_fee_tx system generated t tx cr_account dr_account in
      let (row, d6, e6, h6) = >>=-eq-ok (Transactions.create fee_tx) _ d5 h5 in
      let (s, d7, e7, h7) = >>=-eq-ok (create_seen (seen_of t)) _ d6 h6 in
      let (done_out, same) = pure-eq-ok h7 in
      let q1 =
        sym (ap (λ (r : Result Account × Db). r.1) e1)
        ∙ fees_account_dr_state system generated t.currency tx db in
      let q2 =
        sym (ap (λ (r : Result Account × Db). r.1) e2)
        ∙ get_system_fees_account_state system (fees_currency t.currency) d1 in
      let state =
        finished_state t fee_tx db d1 d2 d3 d4 d5 d6 d7 db' q1 q2
          (create_blockchain_lem t b d2 d3 e3) (delete_pending_lem t.hash p d3 d4 e4)
          (update_status_lem t.hash TransactionStatus.done x d4 d5 e5)
          (create_lem fee_tx row d5 d6 e6).1 (create_seen_lem (seen_of t) s d6 d7 e7) same in
      (
        sym done_out,
        record {
          fee_row = transaction_row db fee_tx;
          rows = rw state refl;
          fee = refl;
          fee_group = refl;
          fee_is_done = refl;
          accounts = rw state refl;
          pending_gone = rw state refl;
          stored = rw state refl;
          seen = rw state refl;
        },
      )

  -- Put aside, or checked and finished.
  abbrev pub Concluded :
      BlockchainTransaction → BlockchainTransaction → Transaction → Db → Db → Type 0
  Concluded t n tx db db' = PutAside t n tx db db' ⊎ (Verified tx n db × Finished t tx db db')

  -- What was required, and what was done.
  pub record Outcome (f : Floats) (t n : BlockchainTransaction) (tx : Transaction) (db db' : Db)
      : Type 0 where
    pub total : Amount
    pub is_total : value n ≡ some total
    pub waits_or_ends :
        ((n.confirmations < required_confirmations f n.currency total) × (db' ≡ db))
        ⊎ ((required_confirmations f n.currency total ≤ n.confirmations) × Concluded t n tx db db')

  settled :
      (t n : BlockchainTransaction) (tx : Transaction) (db : Db) (out : Handled) (db' : Db)
      (v : Option InvariantViolation)
      → verify_withdrawal_tx tx n db ≡ (ok v, db)
      → settle_withdrawal system generated t tx v db ≡ (ok out, db')
      → (out ≡ ([], [])) × Concluded t n tx db db'
  unfolding settle_withdrawal
  settled t n tx db out db' (some v) e h =
      let (no_rows, aside) =
        put_aside v t n tx db out db' (verify_withdrawal_tx-Breaks tx n v db db e) h in
      (no_rows, inl aside)
  settled t n tx db out db' none e h =
      let (no_rows, finished) = finish_withdrawal-Finished t tx db out db' h in
      (no_rows, inr ((verify_withdrawal_tx-Verified tx n db db e).0, finished))

  -- A withdrawal that the blockchain reports, where handling it succeeds, gives no rows to publish
  -- and no accounts to approve. While it has fewer confirmations than its value requires, nothing
  -- changes. After that, either it breaks an invariant, which the row, the transaction and the
  -- database show, and is put aside with the text of that violation, the ledger left alone; or it
  -- goes from the wallet of the row to one address outside of the system, its row was pending and its
  -- hash was kept as sent, and then every row of its hash is done, one row for the fee of the
  -- blockchain is added, and its pending row is gone. The value reported is not compared with the
  -- value of the row: the source has that check commented out.
  pub handle_withdrawal-Outcome :
      (f : Floats) (t n : BlockchainTransaction) (tx : Transaction) (db : Db) (out : Handled)
      (db' : Db)
      → handle_withdrawal system generated f t n tx db ≡ (ok out, db')
      → (out ≡ ([], [])) × Outcome f t n tx db db'
  unfolding handle_withdrawal
  handle_withdrawal-Outcome f t n tx db out db' h = elim (Option-cases (value n)) [
    | inl e ↦ cc (rw e at h)
    | inr (total, e) ↦
        elim (Bool-cases (ltb n.confirmations (required_confirmations f n.currency total))) [
          | inl few ↦
              let (o, same) = pure-eq-ok (rw (e, few) at h) in
              (
                sym o,
                record {
                  total = total;
                  is_total = e;
                  waits_or_ends = inl (
                    ltb→lt n.confirmations (required_confirmations f n.currency total) few,
                    sym same,
                  );
                },
              )
          | inr many ↦
              let (v, d, e1, k) =
                >>=-eq-ok (verify_withdrawal_tx tx n) (settle_withdrawal system generated t tx) db
                  (rw (e, many) at h) in
              let same =
                sym (ap (λ (r : Result (Option InvariantViolation) × Db). r.1) e1)
                ∙ verify_withdrawal_tx_state tx n db in
              let (no_rows, concluded) =
                settled t n tx db out db' v
                  (subst (λ x. verify_withdrawal_tx tx n db ≡ (ok v, x)) same e1)
                  (subst (λ x. settle_withdrawal system generated t tx v x ≡ (ok out, db')) same
                    k) in
              (
                no_rows,
                record {
                  total = total;
                  is_total = e;
                  waits_or_ends = inr (ground arith, concluded);
                },
              )
        ]
  ]
