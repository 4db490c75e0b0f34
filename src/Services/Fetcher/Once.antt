-- ===== src/Services/Fetcher/Once.antt =====
-- A message that is delivered again (services/rabbit.rs).
use transactions.Repos.Transactions.{has_blockchain_tx}
use transactions.Services.Fetcher.Handling.{handle_unseen, handle_known, handle_in_transaction}
use transactions.Services.Fetcher.Confirmations.{required_confirmations}
use transactions.Services.Fetcher.Settling.{approved, approval_of}
use transactions.Services.Fetcher.Violations.{
  handle_violation, InvariantViolation, verify_deposit_tx, front, message_of, verify_withdrawal_tx,
}
use transactions.Services.System.{SystemAccounts, get_system_fees_account}
use transactions.Prelude.{
  not, ◌≡◌, refl, inl, inr, Option, none, some, List, [], ◌∷◌, arith, map, ◌==◌, nat_eq, ltb, find,
  find-any, Bool-cases,
}
use transactions.Exec.{
  ok, raise_if, ok_or, ◌>>◌, internal, balance_overflow, invalid_currency,
  invalid_blockchain_transaction_structure, raise_if_state, >>=-eq-ok, ok_or-eq-ok,
}
use transactions.Float.{Floats}
use transactions.Models.{AccountId, TransactionId, AccountKind, currency_eq, stq, TransactionStatus}
use transactions.Models.Records.{Account, BlockchainTransaction, Transaction, SeenHash, strange_of}
use transactions.Repos.{Db}
use transactions.Models.Normalization.{value, normalized}
use transactions.Repos.Accounts
use transactions.Repos.Blockchain.{create_blockchain, delete_pending}
use transactions.Repos.Seen.{is_seen_as, get_seen, create_strange}
use transactions.Repos.Transactions
use transactions.Services.Fetcher.Settling.{
  Handled, nothing, handle_approval, mark_approved, settle_withdrawal, handle_withdrawal,
  finish_withdrawal, get_fees_account_dr, fees_currency, blockchain_fee_tx,
}
use transactions.Services.Fetcher.Depositing.{
  deposit_unless, handle_matched, handle_deposit, address_of,
}
use transactions.Services.Fetcher.Rounds.{deposit_loop-SeenAfter, get_by_address_state, ok_or_state}
use transactions.Services.Fetcher.Rules.{
  IsSeen, SeenAfter, Settled, SeenAfter-Settled, after_same, seen_any, then_seen, SeenAfter-pure,
}

violation-SeenAfter :
    (v : InvariantViolation) (t : BlockchainTransaction) (d : Db)
    → SeenAfter t ((handle_violation v t >> nothing) d)
unfolding handle_violation
violation-SeenAfter v t d =
    then_seen t (handle_violation v t) _ d
      (seen_any t (create_strange (strange_of t (message_of v))) _ d λ s d1. SeenAfter-pure t tt d1)
      λ u d1 k. k

mark_approved-Settled :
    (t : BlockchainTransaction) (o : Option Account) (db : Db) → Settled t db (mark_approved t o db)
unfolding mark_approved
mark_approved-Settled t none db = inr (refl, refl)
mark_approved-Settled t (some a) db = elim (Bool-cases a.erc20_approved) [
  | inl e ↦ rw e (inr (refl, refl))
  | inr e ↦ rw e (
      SeenAfter-Settled t db _ (
        seen_any t (Accounts.update a.id approved) _ db λ b d1.
          seen_any t (create_blockchain t) _ d1
            λ c d2. seen_any t (delete_pending t.hash) _ d2 λ p d3. SeenAfter-pure t ([], []) d3))
]

handle_approval-Settled :
    (t : BlockchainTransaction) (db : Db) → Settled t db (handle_approval t db)
unfolding handle_approval
handle_approval-Settled t db =
    after_same t db (raise_if (not (t.currency == stq)) invalid_currency internal) _
      (raise_if_state (not (t.currency == stq)) invalid_currency internal db)
      λ u.
        after_same t db (ok_or invalid_blockchain_transaction_structure internal (front t.from)) _
          (ok_or_state invalid_blockchain_transaction_structure internal (front t.from) db)
          λ from.
            after_same t db (Accounts.get_by_address from stq AccountKind.dr) _
              (get_by_address_state from stq AccountKind.dr db)
              λ found. mark_approved-Settled t found db

normalized_same :
    (t n : BlockchainTransaction)
    → normalized t ≡ some n
    → (n.hash ≡ t.hash) × (n.currency ≡ t.currency)
unfolding normalized
normalized_same t n h = ground arith

module _ (system : SystemAccounts) (generated : AccountId → TransactionId) where
  settle-SeenAfter :
      (t : BlockchainTransaction) (tx : Transaction) (o : Option InvariantViolation) (d : Db)
      → SeenAfter t (settle_withdrawal system generated t tx o d)
  unfolding settle_withdrawal finish_withdrawal
  settle-SeenAfter t tx (some v) d = violation-SeenAfter v t d
  settle-SeenAfter t tx none d =
      seen_any t (get_fees_account_dr system generated t.currency tx) _ d λ dr_account d1.
        seen_any t (get_system_fees_account system (fees_currency t.currency)) _ d1 λ cr_account d2.
          seen_any t (create_blockchain t) _ d2 λ b d3.
            seen_any t (delete_pending t.hash) _ d3 λ p d4.
              seen_any t (Transactions.update_status t.hash TransactionStatus.done) _ d4 λ x d5.
                seen_any t
                  (Transactions.create
                    (blockchain_fee_tx system generated t tx cr_account dr_account))
                  _ d5 λ y d6. SeenAfter-pure t ([], []) d6

  handle_withdrawal-Settled :
      (f : Floats) (t n : BlockchainTransaction) (tx : Transaction) (db : Db)
      → Settled t db (handle_withdrawal system generated f t n tx db)
  unfolding handle_withdrawal
  handle_withdrawal-Settled f t n tx db =
      after_same t db (ok_or balance_overflow internal (value n)) _
        (ok_or_state balance_overflow internal (value n) db)
        λ total.
          elim (Bool-cases (ltb n.confirmations (required_confirmations f n.currency total))) [
            | inl e ↦ rw e (inr (refl, refl))
            | inr e ↦ rw e (
                SeenAfter-Settled t db _
                  (seen_any t (verify_withdrawal_tx tx n) _ db λ v d1. settle-SeenAfter t tx v d1))
          ]

  matched-SeenAfter :
      (t n : BlockchainTransaction) (accounts : List Account) (d : Db)
      → SeenAfter t (handle_matched generated t n accounts d)
  unfolding handle_matched deposit_unless
  matched-SeenAfter t n [] d = SeenAfter-pure t ([], []) d
  matched-SeenAfter t n (a ∷ rest) d = seen_any t (verify_deposit_tx n) _ d λ v d1. unless v d1
    where
      unless :
          (v : Option InvariantViolation) (d : Db)
          → SeenAfter t (deposit_unless generated t (a ∷ rest) v d)
      unless (some v) d = violation-SeenAfter v t d
      unless none d = deposit_loop-SeenAfter generated t a rest d

  handle_deposit-Settled :
      (t n : BlockchainTransaction) (db : Db) → Settled t db (handle_deposit generated t n db)
  unfolding handle_deposit
  handle_deposit-Settled t n db = SeenAfter-Settled t db _ (
      seen_any t
        (Accounts.get_by_addresses (map (address_of generated) n.to) t.currency AccountKind.dr) _ db
        λ matched d1. matched-SeenAfter t n matched d1)

  handle_unseen-Settled :
      (f : Floats) (t n : BlockchainTransaction) (o : Option SeenHash) (db : Db)
      → Settled t db (handle_unseen system generated f t n o db)
  unfolding handle_unseen handle_known Transactions.get_by_blockchain_tx
  handle_unseen-Settled f t n (some s) db = inr (refl, refl)
  handle_unseen-Settled f t n none db = elim (Bool-cases (approval_of t.erc20_operation_kind)) [
    | inl e ↦ rw e (handle_approval-Settled t db)
    | inr e ↦ rw e (known (find (has_blockchain_tx n.hash) db.transactions))
  ]
    where
      known : (o : Option Transaction) → Settled t db (handle_known system generated f t n o db)
      known (some tx) = handle_withdrawal-Settled f t n tx db
      known none = handle_deposit-Settled t n db

  pub in_transaction-Settled :
      (f : Floats) (t : BlockchainTransaction) (db : Db)
      → Settled t db (handle_in_transaction system generated f t db)
  unfolding handle_in_transaction get_seen
  in_transaction-Settled f t db =
      after_same t db (ok_or balance_overflow internal (normalized t)) _
        (ok_or_state balance_overflow internal (normalized t) db)
        λ n. handle_unseen-Settled f t n (find (is_seen_as n.hash n.currency) db.seen_hashes) db

  pub has_normal :
      (f : Floats) (t : BlockchainTransaction) (db : Db) (out : Handled) (db' : Db)
      → handle_in_transaction system generated f t db ≡ (ok out, db')
      → (n : BlockchainTransaction) × (normalized t ≡ some n)
  unfolding handle_in_transaction
  has_normal f t db out db' h =
      let (n, d, e, rest) = >>=-eq-ok (ok_or balance_overflow internal (normalized t)) _ db h in
      (n, (ok_or-eq-ok balance_overflow internal (normalized t) db n d e).0)

  pub seen_skipped :
      (f : Floats) (t n : BlockchainTransaction) (db : Db)
      → normalized t ≡ some n
      → IsSeen t db
      → handle_in_transaction system generated f t db ≡ (ok ([], []), db)
  unfolding handle_in_transaction get_seen handle_unseen
  seen_skipped f t n db e k =
      let (hash, currency) = normalized_same t n e in
      let (s, found) = find-any (is_seen_as t.hash t.currency) db.seen_hashes k in
      rw (e, hash, currency, found) refl
