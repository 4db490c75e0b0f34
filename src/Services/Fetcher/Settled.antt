-- ===== src/Services/Fetcher/Settled.antt =====
-- What a transaction that we sent does to the ledger when the blockchain reports it
-- (services/rabbit.rs).
use mathlib.Core.Path.{subst, sym}
use transactions.Repos.Accounts.{with_id}
use transactions.Repos.Blockchain.{has_pending_hash, get_pending}
use transactions.Exec.{ok, >>=-eq-ok, ok_or, panicked, internal, ok_or-eq-ok}
use transactions.Repos.{Db}
use transactions.Models.{
  BlockchainAddress, Currency, TransactionStatus, AccountKind, account_kind_eq, currency_eq,
  status_eq,
}
use transactions.Models.Records.{
  Transaction, BlockchainTransaction, Account, BlockchainTransactionEntryTo,
  PendingBlockchainTransaction,
}
use transactions.Services.Fetcher.Violations.{
  verify_addresses, verify_external, front, verify_withdrawal_tx, verify_managed,
}
use transactions.Repos.Accounts
use transactions.Prelude.{
  refl, inl, inr, true, false, ◌==◌, nat_eq, ◌&&◌, some, none, ◌≢◌, not, ◌≡◌, ◌≡◌, length, arith,
  find, ◌∙◌, ◌∙◌, Option, ap, ◌||◌, ◌||◌, Bool-cases, nat_beq_iff, Option-cases,
}

abbrev pub account_at : BlockchainAddress → Currency → AccountKind → Db → Option Account
account_at address currency kind db =
    find (λ a. a.address == address && a.kind == kind && a.currency == currency) db.accounts

-- The checks of a withdrawal were passed.
pub record Verified (tx : Transaction) (n : BlockchainTransaction) (db : Db) : Type 0 where
  pub from_one : length n.from ≡ 1
  pub to_one : length n.to ≡ 1
  pub was_pending : tx.status ≡ TransactionStatus.pending
  pub kept : find (has_pending_hash n.hash) db.pending_blockchain_transactions ≢ none
  pub managed_address : Account
  pub managed : find (with_id tx.cr_account_id) db.accounts ≡ some managed_address
  pub sender : front n.from ≡ some managed_address.address
  pub to_entry : BlockchainTransactionEntryTo
  pub receiver : front n.to ≡ some to_entry
  pub no_wallet : account_at to_entry.address n.currency AccountKind.dr db ≡ none
  pub no_account_of_user : account_at to_entry.address n.currency AccountKind.cr db ≡ none

verify_external_lem :
    (x : BlockchainAddress) (c : Currency) (db d : Db)
    → verify_external x c db ≡ (ok none, d)
    → (account_at x c AccountKind.dr db ≡ none)
      × (account_at x c AccountKind.cr db ≡ none)
      × (d ≡ db)
unfolding verify_external Accounts.get_by_address
verify_external_lem x c db d h =
    by_wallet (account_at x c AccountKind.dr db) (account_at x c AccountKind.cr db) refl refl
  where
    by_wallet :
        (o q : Option Account)
        → account_at x c AccountKind.dr db ≡ o
        → account_at x c AccountKind.cr db ≡ q
        → (account_at x c AccountKind.dr db ≡ none)
          × (account_at x c AccountKind.cr db ≡ none)
          × (d ≡ db)
    by_wallet none none e e' = (e, e', cc (rw (e, e') at h))
    by_wallet none (some a) e e' = cc (rw (e, e') at h)
    by_wallet (some a) q e e' = cc (rw e at h)

verify_managed_lem :
    (from to : BlockchainAddress) (c : Currency) (o : Option Account) (db d : Db)
    → verify_managed from to c o db ≡ (ok none, d)
    → (a : Account) × (o ≡ some a)
      × (from ≡ a.address)
      × (account_at to c AccountKind.dr db ≡ none)
      × (account_at to c AccountKind.cr db ≡ none)
      × (d ≡ db)
unfolding verify_managed
verify_managed_lem from to c none db d h = cc h
verify_managed_lem from to c (some a) db d h = elim (Bool-cases (a.address == from)) [
  | inl e ↦
      let (w, u, s) = verify_external_lem to c db d (rw e at h) in
      (a, refl, sym ((nat_beq_iff a.address from).0 e), w, u, s)
  | inr e ↦ cc (rw e at h)
]

verify_addresses_lem :
    (tx : Transaction) (n : BlockchainTransaction) (db : Db) (d : Db)
    → length n.from ≡ 1
    → length n.to ≡ 1
    → tx.status ≡ TransactionStatus.pending
    → find (has_pending_hash n.hash) db.pending_blockchain_transactions ≢ none
    → verify_addresses tx n db ≡ (ok none, d)
    → Verified tx n db × (d ≡ db)
unfolding verify_addresses Accounts.get
verify_addresses_lem tx n db d f1 t1 p k h =
    let (from, d1, e1, h1) = >>=-eq-ok (ok_or panicked internal (front n.from)) _ db h in
    let (has_from, s1) = ok_or-eq-ok _ _ (front n.from) db from d1 e1 in
    let (to, d2, e2, h2) = >>=-eq-ok (ok_or panicked internal (front n.to)) _ d1 h1 in
    let (has_to, s2) = ok_or-eq-ok _ _ (front n.to) d1 to d2 e2 in
    let (a, has_a, is_from, w, u, s3) =
      verify_managed_lem from to.address n.currency (find (with_id tx.cr_account_id) d2.accounts) d2
        d h2 in
    let s = s2 ∙ s1 in
    (
      record {
        from_one = f1;
        to_one = t1;
        was_pending = p;
        kept = k;
        managed_address = a;
        managed = subst (λ (x : Db). find (with_id tx.cr_account_id) x.accounts ≡ some a) s has_a;
        sender = has_from ∙ ap some is_from;
        to_entry = to;
        receiver = has_to;
        no_wallet = subst (λ x. account_at to.address n.currency AccountKind.dr x ≡ none) s w;
        no_account_of_user =
            subst (λ x. account_at to.address n.currency AccountKind.cr x ≡ none) s u;
      },
      s3 ∙ s,
    )

pub verify_withdrawal_tx-Verified :
    (tx : Transaction) (n : BlockchainTransaction) (db : Db) (d : Db)
    → verify_withdrawal_tx tx n db ≡ (ok none, d)
    → Verified tx n db × (d ≡ db)
unfolding verify_withdrawal_tx get_pending
verify_withdrawal_tx-Verified tx n db d h =
    elim (Bool-cases (not (length n.from == 1) || not (length n.to == 1))) [
      | inl e ↦ cc (rw e at h)
      | inr e ↦ elim (Bool-cases (tx.status == TransactionStatus.pending)) [
        | inr e' ↦ cc (rw (e, e') at h)
        | inl e' ↦
            by_pending (find (has_pending_hash n.hash) db.pending_blockchain_transactions) refl e e'
      ]
    ]
  where
    by_pending :
        (o : Option PendingBlockchainTransaction)
        → find (has_pending_hash n.hash) db.pending_blockchain_transactions ≡ o
        → (not (length n.from == 1) || not (length n.to == 1)) ≡ false
        → (tx.status == TransactionStatus.pending) ≡ true
        → Verified tx n db × (d ≡ db)
    by_pending none q e e' = cc (rw (e, e', q) at h)
    by_pending (some p) q e e' =
        verify_addresses_lem tx n db d (ground arith) (ground arith)
          ((status_eq.eq_iff tx.status TransactionStatus.pending).0 e') (λ z. cc (sym q ∙ z))
          (rw (e, e', q) at h)

verify_external_state :
    (x : BlockchainAddress) (c : Currency) (db : Db) → (verify_external x c db).1 ≡ db
unfolding verify_external Accounts.get_by_address
verify_external_state x c db = ground arith

verify_managed_state :
    (from to : BlockchainAddress) (c : Currency) (o : Option Account) (db : Db)
    → (verify_managed from to c o db).1 ≡ db
unfolding verify_managed
verify_managed_state from to c none db = refl
verify_managed_state from to c (some a) db = elim (Bool-cases (a.address == from)) [
  | inl e ↦ rw e (verify_external_state to c db)
  | inr e ↦ rw e refl
]

verify_addresses_state :
    (tx : Transaction) (n : BlockchainTransaction) (db : Db) → (verify_addresses tx n db).1 ≡ db
unfolding verify_addresses Accounts.get
verify_addresses_state tx n db = elim (Option-cases (front n.from)) [
  | inl e ↦ rw e refl
  | inr (from, e) ↦ elim (Option-cases (front n.to)) [
    | inl e' ↦ rw (e, e') refl
    | inr (to, e') ↦
        rw (e, e')
          (verify_managed_state from to.address n.currency
            (find (with_id tx.cr_account_id) db.accounts) db)
  ]
]

pub verify_withdrawal_tx_state :
    (tx : Transaction) (n : BlockchainTransaction) (db : Db) → (verify_withdrawal_tx tx n db).1 ≡ db
unfolding verify_withdrawal_tx get_pending
verify_withdrawal_tx_state tx n db = ground (arith, verify_addresses_state tx n db)
