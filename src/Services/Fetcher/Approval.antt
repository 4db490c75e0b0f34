-- ===== src/Services/Fetcher/Approval.antt =====
-- `send_erc20_approval` of services/rabbit.rs: ether is sent to an account's address, which then
-- approves the transfer of its tokens. The delay before the approval is left out.
use transactions.Prelude.{ℕ, none, some}
use transactions.Exec.{Exec, pure, ok_or, as_internal, ◌>>=◌, ◌>>◌, ErrorKind, balance_overflow}
use transactions.Float.{Floats}
use transactions.Models.{
  BlockchainTransactionId, TransactionId, next, eth, stq, TransactionStatus, TransactionKind,
  TransactionGroupKind,
}
use transactions.Models.Records.{Account, Amount, NewTransaction}
use transactions.Models.Sending.{
  ApproveInput, CreateBlockchainTx, Role, new_pending, new_pending_approve, with_log_number,
}
use transactions.Amount.{checked_mul}
use transactions.Repos.{Db}
use transactions.Repos.Transactions
use transactions.Services.Blockchain.Nonces.{take_nonce}
use transactions.Services.Blockchain.Sending.{keep_pending}
use transactions.Services.Clients.{Clients, ask, from_client_kind}
use transactions.Services.System.{
  SystemAccounts, get_system_fees_account, get_system_fees_account_dr,
}

-- 100 bn of storiqa
abbrev pub stq_allowance : Amount
stq_allowance = 100_000_000_000_000_000_000_000_000_000

-- `config.system.approve_gas_price` and `approve_gas_limit`
pub record ApproveGas (F64 : Type 0) : Type 0 where
  pub price : F64
  pub limit : ℕ

unfoldable pub eth_transfer_tx :
    TransactionId → Account → Account → Account → Amount → BlockchainTransactionId → NewTransaction
eth_transfer_tx id account eth_fees_cr_account tx_initiator approve_value eth_tx_id = record {
  id = id;
  gid = id;
  user_id = account.user_id;
  dr_account_id = eth_fees_cr_account.id;
  cr_account_id = tx_initiator.id;
  currency = eth;
  value = approve_value;
  status = TransactionStatus.pending;
  blockchain_tx_id = some eth_tx_id;
  kind = TransactionKind.approval_transfer;
  group_kind = TransactionGroupKind.approval;
  related_tx = none;
  meta = none;
}

module _ (f : Floats) (clients : Clients f) (system : SystemAccounts) (gas : ApproveGas f.F64) where
  unfoldable pub transfer_input :
      TransactionId → Account → Account → Amount → ℕ → CreateBlockchainTx f.F64
  transfer_input id account tx_initiator approve_value nonce = record {
    id = id;
    from = tx_initiator.address;
    to = account.address;
    currency = eth;
    value = approve_value;
    fee_price = gas.price;
    nonce = some nonce;
    utxos = none;
  }

  unfoldable pub approve_input : TransactionId → Account → Account → ℕ → ApproveInput f.F64
  approve_input next_id account tx_initiator approve_nonce = record {
    id = next_id;
    address = account.address;
    approve_address = tx_initiator.address;
    currency = stq;
    value = stq_allowance;
    fee_price = gas.price;
    nonce = approve_nonce;
  }

  -- The ether for the approval, with a row for it, pending as the transfer is.
  unfoldable pub transfer_ether : TransactionId → Account → Account → Exec Db (Unit {0})
  transfer_ether id account tx_initiator = do
    ethereum_nonce ← ask from_client_kind (clients.get_ethereum_nonce tx_initiator.address)
    eth_fees_account_nonce ← take_nonce tx_initiator.address ethereum_nonce
    approve_value ←
        ok_or balance_overflow ErrorKind.internal (checked_mul (f.to_u128 gas.price) gas.limit)
    let transfer : CreateBlockchainTx f.F64 =
        transfer_input id account tx_initiator approve_value eth_fees_account_nonce
    eth_raw_tx ← as_internal (ask from_client_kind (clients.sign_transaction transfer Role.system))
    eth_tx_id ← as_internal (ask from_client_kind (clients.post_ethereum_transaction eth_raw_tx))
    eth_fees_cr_account ← get_system_fees_account system eth
    keep_pending (new_pending transfer eth_tx_id)
    Transactions.create
        (eth_transfer_tx id account eth_fees_cr_account tx_initiator approve_value eth_tx_id)
    pure tt

  -- The approval, of which only a pending row is kept.
  unfoldable pub send_approve : TransactionId → Account → Account → Exec Db (Unit {0})
  send_approve next_id account tx_initiator = do
    approve_nonce ← as_internal (ask from_client_kind (clients.get_ethereum_nonce account.address))
    let input : ApproveInput f.F64 = approve_input next_id account tx_initiator approve_nonce
    approve_raw_tx ← as_internal (ask from_client_kind (clients.approve input Role.user))
    approve_tx_id ←
        as_internal (ask from_client_kind (clients.post_ethereum_transaction approve_raw_tx))
    keep_pending (new_pending_approve input (with_log_number approve_tx_id))

  unfoldable pub send_erc20_approval : Account → Exec Db (Unit {0})
  send_erc20_approval account db =
      let id = clients.generate_transaction_id db.now in
      (do
        tx_initiator ← get_system_fees_account_dr system eth
        transfer_ether id account tx_initiator
        send_approve (next id) account tx_initiator)
        db
