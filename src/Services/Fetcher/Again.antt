-- ===== src/Services/Fetcher/Again.antt =====
-- A blockchain transaction that is delivered again, with the approvals that follow a deposit
-- (services/rabbit.rs).
use mathlib.Core.Path.{subst, sym}
use transactions.Services.Fetcher.Once.{seen_skipped, has_normal, in_transaction-Settled}
use transactions.Models.Normalization.{normalized}
use transactions.Services.Withdrawals.Sums.{committed}
use transactions.Services.Fetcher.Handling.{handle_in_transaction}
use transactions.Services.Fetcher.Settling.{Handled}
use transactions.Models.Sending.{Role, new_pending, new_pending_approve, with_log_number}
use transactions.Prelude.{refl, inl, inr, List, [], ◌∷◌, some, ◌∙◌, ap}
use transactions.Services.Fetcher.Messages.{send_approvals, handle_transaction}
use transactions.Repos.Transactions
use transactions.Services.Fetcher.Rounds.{ok_or_state, create_hashes}
use transactions.Amount.{checked_mul}
use transactions.Services.Blockchain.Order.{take_nonce_lem}
use transactions.Services.Blockchain.Nonces.{take_nonce}
use transactions.Exec.{
  as_internal, as_internal_state, ok_or, balance_overflow, ErrorKind, ok, >>=-eq-ok,
  execute_transaction, pure,
}
use transactions.Prelude.{arith, ◌≡◌, List, ◌∷◌}
use transactions.Services.Blockchain.Sending.{keep_pending}
use transactions.Models.{AccountId, TransactionId, eth, derive_system_dr_id, next}
use transactions.Services.Fetcher.Approval.{
  ApproveGas, transfer_ether, eth_transfer_tx, send_approve, transfer_input, send_erc20_approval,
  approve_input,
}
use transactions.Repos.{Db}
use transactions.Models.Records.{
  BlockchainTransaction, PendingBlockchainTransaction, Time, Account, Transaction,
}
use transactions.Repos.Accounts
use transactions.Services.Clients.{Clients, Reply, ClientErrorKind, ask, from_client_kind}
use transactions.Float.{Floats}
use transactions.Repos.Blockchain.{create_pending}
use transactions.Services.System.{
  get_system_account, SystemAccounts, get_system_fees_account, fees_account_id,
  get_system_fees_account_dr,
}
use transactions.Services.Fetcher.Rules.{IsSeen, Settled, StaysSeen, seen_kept, stays}

get_system_account_state :
    (system : SystemAccounts) (id : AccountId) (db : Db) → (get_system_account system id db).1 ≡ db
unfolding get_system_account Accounts.get
get_system_account_state system id db = ground arith

keep_pending-IsSeen :
    (t : BlockchainTransaction) (p : PendingBlockchainTransaction) (db : Db)
    → IsSeen t db
    → IsSeen t (keep_pending p db).1
unfolding create_pending
keep_pending-IsSeen t p db h = ground arith

module _ (f : Floats) (clients : Clients f) (system : SystemAccounts) (gas : ApproveGas f.F64)
    (t : BlockchainTransaction) where
  asked-IsSeen :
      {A : Type 0} (call : Time → Reply ClientErrorKind A) (d : Db)
      → IsSeen t d
      → IsSeen t (as_internal (ask from_client_kind call) d).1
  asked-IsSeen call d h = rw (as_internal_state (ask from_client_kind call) d) h

  transfer_ether-StaysSeen :
      (id : TransactionId) (account a : Account) (d : Db)
      → IsSeen t d
      → StaysSeen t (transfer_ether f clients system gas id account a d)
  unfolding transfer_ether get_system_fees_account
  transfer_ether-StaysSeen id account a d h =
      seen_kept t (ask from_client_kind (clients.get_ethereum_nonce a.address)) _ d h λ n d1 k1.
        seen_kept t (take_nonce a.address n) _ d1 (rw (take_nonce_lem a.address n d1) k1)
          λ nonce d2 k2.
            seen_kept t
              (ok_or balance_overflow ErrorKind.internal
                (checked_mul (f.to_u128 gas.price) gas.limit))
              _ d2
              (rw
                (ok_or_state balance_overflow ErrorKind.internal
                  (checked_mul (f.to_u128 gas.price) gas.limit) d2)
                k2)
              λ v d3 k3.
                let x = transfer_input f clients system gas id account a v nonce in
                seen_kept t
                  (as_internal (ask from_client_kind (clients.sign_transaction x Role.system))) _ d3
                  (asked-IsSeen (clients.sign_transaction x Role.system) d3 k3)
                  λ raw d4 k4.
                    seen_kept t
                      (as_internal (ask from_client_kind (clients.post_ethereum_transaction raw))) _
                      d4 (asked-IsSeen (clients.post_ethereum_transaction raw) d4 k4)
                      λ hash d5 k5.
                        seen_kept t (get_system_account system (fees_account_id system eth)) _ d5
                          (rw (get_system_account_state system (fees_account_id system eth) d5) k5)
                          λ c d6 k6.
                            let kept = (keep_pending (new_pending x hash) d6).1 in
                            seen_kept t
                              (Transactions.create (eth_transfer_tx id account c a v hash))
                              (λ row. pure tt) kept
                              (rw (create_hashes (eth_transfer_tx id account c a v hash) kept)
                                (keep_pending-IsSeen t (new_pending x hash) d6 k6))
                              λ row d7 k7. k7

  send_approve-StaysSeen :
      (id : TransactionId) (account a : Account) (d : Db)
      → IsSeen t d
      → StaysSeen t (send_approve f clients system gas id account a d)
  unfolding send_approve
  send_approve-StaysSeen id account a d h =
      seen_kept t (as_internal (ask from_client_kind (clients.get_ethereum_nonce account.address)))
        _ d (asked-IsSeen (clients.get_ethereum_nonce account.address) d h)
        λ n d1 k1.
          let x = approve_input f clients system gas id account a n in
          seen_kept t (as_internal (ask from_client_kind (clients.approve x Role.user))) _ d1
            (asked-IsSeen (clients.approve x Role.user) d1 k1)
            λ raw d2 k2.
              seen_kept t
                (as_internal (ask from_client_kind (clients.post_ethereum_transaction raw))) _ d2
                (asked-IsSeen (clients.post_ethereum_transaction raw) d2 k2)
                λ hash d3 k3.
                  keep_pending-IsSeen t (new_pending_approve x (with_log_number hash)) d3 k3

  send_erc20_approval-StaysSeen :
      (account : Account) (d : Db)
      → IsSeen t d
      → StaysSeen t (send_erc20_approval f clients system gas account d)
  unfolding send_erc20_approval get_system_fees_account_dr
  send_erc20_approval-StaysSeen account d h =
      let id = clients.generate_transaction_id d.now in
      let dr = derive_system_dr_id (fees_account_id system eth) in
      seen_kept t (get_system_account system dr) _ d (rw (get_system_account_state system dr d) h)
        λ a d1 k1.
          seen_kept t (transfer_ether f clients system gas id account a) _ d1
            (stays t _ (transfer_ether-StaysSeen id account a d1 k1))
            λ u d2 k2. send_approve-StaysSeen (next id) account a d2 k2

  send_approvals-StaysSeen :
      (generated : AccountId → TransactionId) (accounts : List Account) (d : Db)
      → IsSeen t d
      → StaysSeen t (send_approvals f clients system gas generated accounts d)
  unfolding send_approvals
  send_approvals-StaysSeen generated [] d h = h
  send_approvals-StaysSeen generated (account ∷ rest) d h =
      seen_kept t (send_erc20_approval f clients system gas account) _ d
        (stays t _ (send_erc20_approval-StaysSeen account d h))
        λ u d1 k1. send_approvals-StaysSeen generated rest d1 k1

module _ (f : Floats) (clients : Clients f) (system : SystemAccounts) (gas : ApproveGas f.F64)
    (generated : AccountId → TransactionId) where
  first_done :
      (t : BlockchainTransaction) (db : Db) (txs : List Transaction) (db' : Db)
      → handle_transaction f clients system gas generated t db ≡ (ok txs, db')
      → (out : Handled) × (d : Db) × (handle_in_transaction system generated f t db ≡ (ok out, d))
        × (txs ≡ out.0)
        × (db' ≡ (send_approvals f clients system gas generated out.1 d).1)
  unfolding handle_transaction
  first_done t db txs db' h =
      let (out, d, e, rest) =
        >>=-eq-ok (execute_transaction (handle_in_transaction system generated f t)) _ db h in
      (out, d, committed (handle_in_transaction system generated f t) db out d e, cc rest, cc rest)

  unapproved :
      (accounts : List Account) (d : Db)
      → accounts ≡ []
      → (send_approvals f clients system gas generated accounts d).1 ≡ d
  unfolding send_approvals
  unapproved accounts d e = rw e refl

  nothing_done :
      (t : BlockchainTransaction) (db : Db)
      → handle_in_transaction system generated f t db ≡ (ok ([], []), db)
      → handle_transaction f clients system gas generated t db ≡ (ok [], db)
  unfolding handle_transaction send_approvals
  nothing_done t db e = rw e refl

  -- A blockchain transaction that was handled once with success, on any branch, the approvals that
  -- follow a deposit included, may be delivered again: the second time the database stays as it is,
  -- and no row is returned that would be published.
  pub handle_transaction_again :
      (t : BlockchainTransaction) (db : Db) (txs : List Transaction) (db' : Db)
      → handle_transaction f clients system gas generated t db ≡ (ok txs, db')
      → handle_transaction f clients system gas generated t db' ≡ (ok [], db')
  handle_transaction_again t db txs db' h =
      let (out, d, e, o, s) = first_done t db txs db' h in
      let (n, normal) = has_normal system generated f t db out d e in
      nothing_done t db' (
        again out d n e s normal
          (subst (Settled t db) e (in_transaction-Settled system generated f t db)))
    where
      again :
          (out : Handled) (d : Db) (n : BlockchainTransaction)
          → handle_in_transaction system generated f t db ≡ (ok out, d)
          → db' ≡ (send_approvals f clients system gas generated out.1 d).1
          → normalized t ≡ some n
          → Settled t db (ok out, d)
          → handle_in_transaction system generated f t db' ≡ (ok ([], []), db')
      again out d n e s normal (inl seen) = seen_skipped system generated f t n db' normal (
          rw s (stays t _ (send_approvals-StaysSeen f clients system gas t generated out.1 d seen)))
      again out d n e s normal (inr (o, same)) =
          let left = s ∙ unapproved out.1 d (ap (λ (x : Handled). x.1) o) ∙ same in
          subst (λ x. handle_in_transaction system generated f t x ≡ (ok ([], []), x)) (sym left)
            (e ∙ rw (o, same) refl)
