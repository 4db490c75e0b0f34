-- ===== src/Services/Fetcher/Broken.antt =====
-- Why a withdrawal that the blockchain reports is put aside (services/rabbit.rs).
use transactions.Services.Fetcher.Settled.{account_at}
use transactions.Repos.Accounts.{with_id}
use mathlib.Core.Path.{subst}
use transactions.Repos.Blockchain.{get_pending, has_pending_hash}
use transactions.Models.{BlockchainAddress, TransactionStatus, AccountKind, status_eq}
use transactions.Repos.{Db}
use transactions.Models.Records.{
  Transaction, BlockchainTransaction, BlockchainTransactionEntryTo, PendingBlockchainTransaction,
  Account,
}
use transactions.Repos.Accounts
use transactions.Exec.{ok, >>=-eq-ok, ok_or, ok_or-eq-ok, panicked, internal}
use transactions.Prelude.{
  inl, inr, true, false, ◌==◌, nat_eq, ◌||◌, some, none, ◌≢◌, ◌⊎◌, not, ◌≡◌, refl, ◌∙◌, length,
  arith, find, Option, Bool-cases,
}
use transactions.Services.Fetcher.Violations.{
  withdrawal_adresses_count, withdrawal_adresses_not_found, not_existing_account,
  withdrawal_adresses_internal, withdrawal_not_pending_address, withdrawal_no_pending_tx,
  InvariantViolation, verify_addresses, verify_managed, verify_withdrawal_tx, verify_external,
  front,
}

-- What each violation says of the row, of the transaction and of the database.
pub data Breaks (tx : Transaction) (n : BlockchainTransaction) (db : Db)
    : InvariantViolation → Type 0 where
  not_one_to_one :
      (length n.from ≢ 1) ⊎ (length n.to ≢ 1) → Breaks tx n db withdrawal_adresses_count
  is_not_pending :
      tx.status ≢ TransactionStatus.pending → Breaks tx n db withdrawal_not_pending_address
  was_not_sent :
      find (has_pending_hash n.hash) db.pending_blockchain_transactions ≡ none
      → Breaks tx n db withdrawal_no_pending_tx
  no_payer :
      find (with_id tx.cr_account_id) db.accounts ≡ none → Breaks tx n db not_existing_account
  other_sender :
      (a : Account)
      → find (with_id tx.cr_account_id) db.accounts ≡ some a
      → front n.from ≢ some a.address
      → Breaks tx n db withdrawal_adresses_not_found
  inside_receiver :
      (e : BlockchainTransactionEntryTo) (a : Account)
      → front n.to ≡ some e
      → (account_at e.address n.currency AccountKind.dr db ≡ some a)
        ⊎ (account_at e.address n.currency AccountKind.cr db ≡ some a)
      → Breaks tx n db withdrawal_adresses_internal

module _ (tx : Transaction) (n : BlockchainTransaction) (v : InvariantViolation) where
  verify_external-Breaks :
      (e : BlockchainTransactionEntryTo) (db d : Db)
      → front n.to ≡ some e
      → verify_external e.address n.currency db ≡ (ok (some v), d)
      → Breaks tx n db v
  unfolding verify_external Accounts.get_by_address
  verify_external-Breaks e db d to h =
      by_wallet (account_at e.address n.currency AccountKind.dr db)
        (account_at e.address n.currency AccountKind.cr db) refl refl
    where
      by_wallet :
          (o q : Option Account)
          → account_at e.address n.currency AccountKind.dr db ≡ o
          → account_at e.address n.currency AccountKind.cr db ≡ q
          → Breaks tx n db v
      by_wallet none none k k' = cc (rw (k, k') at h)
      by_wallet none (some a) k k' =
          let same : withdrawal_adresses_internal ≡ v = cc (rw (k, k') at h) in
          subst (Breaks tx n db) same (inside_receiver e a to (inr k'))
      by_wallet (some a) q k k' =
          let same : withdrawal_adresses_internal ≡ v = cc (rw k at h) in
          subst (Breaks tx n db) same (inside_receiver e a to (inl k))

  verify_managed-Breaks :
      (from : BlockchainAddress) (e : BlockchainTransactionEntryTo) (o : Option Account) (db d : Db)
      → front n.from ≡ some from
      → front n.to ≡ some e
      → find (with_id tx.cr_account_id) db.accounts ≡ o
      → verify_managed from e.address n.currency o db ≡ (ok (some v), d)
      → Breaks tx n db v
  unfolding verify_managed
  verify_managed-Breaks from e none db d is_from to k h =
      let same : not_existing_account ≡ v = cc h in subst (Breaks tx n db) same (no_payer k)
  verify_managed-Breaks from e (some a) db d is_from to k h =
      elim (Bool-cases (a.address == from)) [
        | inl q ↦ verify_external-Breaks e db d to (rw q at h)
        | inr q ↦
            let same : withdrawal_adresses_not_found ≡ v = cc (rw q at h) in
            let other : front n.from ≢ some a.address = λ z. ground arith in
            subst (Breaks tx n db) same (other_sender a k other)
      ]

  verify_addresses-Breaks :
      (db d : Db) → verify_addresses tx n db ≡ (ok (some v), d) → Breaks tx n db v
  unfolding verify_addresses Accounts.get
  verify_addresses-Breaks db d h =
      let (from, d1, e1, h1) = >>=-eq-ok (ok_or panicked internal (front n.from)) _ db h in
      let (has_from, s1) = ok_or-eq-ok _ _ (front n.from) db from d1 e1 in
      let (to, d2, e2, h2) = >>=-eq-ok (ok_or panicked internal (front n.to)) _ d1 h1 in
      let (has_to, s2) = ok_or-eq-ok _ _ (front n.to) d1 to d2 e2 in
      subst (λ x. Breaks tx n x v) (s2 ∙ s1)
        (verify_managed-Breaks from to (find (with_id tx.cr_account_id) d2.accounts) d2 d has_from
          has_to refl h2)

  -- A violation that is found is one that the row and the transaction are guilty of.
  pub verify_withdrawal_tx-Breaks :
      (db d : Db) → verify_withdrawal_tx tx n db ≡ (ok (some v), d) → Breaks tx n db v
  unfolding verify_withdrawal_tx get_pending
  verify_withdrawal_tx-Breaks db d h =
      elim (Bool-cases (not (length n.from == 1) || not (length n.to == 1))) [
        | inl e ↦
            let same : withdrawal_adresses_count ≡ v = cc (rw e at h) in
            subst (Breaks tx n db) same (not_one_to_one (by_side e))
        | inr e ↦ elim (Bool-cases (tx.status == TransactionStatus.pending)) [
          | inr e' ↦
              let same : withdrawal_not_pending_address ≡ v = cc (rw (e, e') at h) in
              let other : tx.status ≢ TransactionStatus.pending = λ z. ground arith in
              subst (Breaks tx n db) same (is_not_pending other)
          | inl e' ↦
              by_pending (find (has_pending_hash n.hash) db.pending_blockchain_transactions) refl e
                e'
        ]
      ]
    where
      by_side :
          (not (length n.from == 1) || not (length n.to == 1)) ≡ true
          → (length n.from ≢ 1) ⊎ (length n.to ≢ 1)
      by_side e = elim (Bool-cases (length n.from == 1)) [
        | inl k ↦ inr (λ z. ground arith)
        | inr k ↦ inl (λ z. ground arith)
      ]

      by_pending :
          (o : Option PendingBlockchainTransaction)
          → find (has_pending_hash n.hash) db.pending_blockchain_transactions ≡ o
          → (not (length n.from == 1) || not (length n.to == 1)) ≡ false
          → (tx.status == TransactionStatus.pending) ≡ true
          → Breaks tx n db v
      by_pending none q e e' =
          let same : withdrawal_no_pending_tx ≡ v = cc (rw (e, e', q) at h) in
          subst (Breaks tx n db) same (was_not_sent q)
      by_pending (some p) q e e' = verify_addresses-Breaks db d (rw (e, e', q) at h)
