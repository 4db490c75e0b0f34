-- ===== src/Services/Blockchain/Sending.antt =====
-- `create_bitcoin_tx` and `create_ethereum_tx` of services/transactions/blockchain.rs: a
-- transaction is signed, posted, and kept as pending. The pause of 1.5 s that follows the choice of
-- a nonce is left out.
use transactions.Prelude.{ℕ, none, some, ◌==◌}
use transactions.Exec.{
  Exec, ok, pure, raise_if, as_internal, ◌>>=◌, ◌>>◌, ErrorKind, invalid_currency,
}
use transactions.Float.{Floats}
use transactions.Models.{
  BlockchainAddress, BlockchainTransactionId, Currency, btc, eth, stq, currency_eq,
}
use transactions.Models.Records.{Amount, PendingBlockchainTransaction}
use transactions.Models.Sending.{CreateBlockchainTx, user, with_log_number, new_pending}
use transactions.Repos.{Db}
use transactions.Repos.Blockchain.{create_pending}
use transactions.Services.Clients.{Clients, ask, from_client_kind}
use transactions.Services.System.{SystemAccounts, get_system_fees_account}
use transactions.Services.Blockchain.Nonces.{take_nonce}

-- `match repo.create(new_pending) { Err(e) => log_and_capture_error(e), _ => () }`
abbrev pub keep_pending : PendingBlockchainTransaction → Exec Db (Unit {0})
keep_pending p db = (ok tt, (create_pending p db).1)

-- The address that pays for the transaction.
unfoldable pub tx_initiator :
    SystemAccounts → Currency → BlockchainAddress → Exec Db BlockchainAddress
tx_initiator system stq from = do
  account ← as_internal (get_system_fees_account system eth)
  pure account.address
tx_initiator system eth from = pure from
tx_initiator system btc from = pure from

unfoldable pub posted_id : Currency → BlockchainTransactionId → BlockchainTransactionId
posted_id eth tx_id = tx_id
posted_id stq tx_id = with_log_number tx_id
posted_id btc tx_id = with_log_number tx_id

module _ (f : Floats) (clients : Clients f) where
  -- What is done once the transaction is in the blockchain: an error of the table is only logged.
  unfoldable pub record_posted :
      CreateBlockchainTx f.F64 → BlockchainTransactionId → Exec Db BlockchainTransactionId
  record_posted input tx_id = do keep_pending (new_pending input tx_id); pure tx_id

  unfoldable pub create_bitcoin_tx :
      BlockchainAddress → BlockchainAddress → Amount → f.F64 → Exec Db BlockchainTransactionId
  create_bitcoin_tx from to value fee_price db =
      (do
        utxos ← ask from_client_kind (clients.get_bitcoin_utxos from)
        let input : CreateBlockchainTx f.F64 = record {
          id = clients.generate_transaction_id db.now;
          from = from;
          to = to;
          currency = btc;
          value = value;
          fee_price = fee_price;
          nonce = none;
          utxos = some utxos;
        }
        raw_tx ← ask from_client_kind (clients.sign_transaction input user)
        tx_id ← ask from_client_kind (clients.post_bitcoin_transaction raw_tx)
        record_posted input tx_id)
        db

  -- The last closure of `create_ethereum_tx`, which has the nonce.
  unfoldable pub send_ethereum :
      BlockchainAddress
      → BlockchainAddress
      → Amount
      → f.F64
      → Currency
      → ℕ
      → Exec Db BlockchainTransactionId
  send_ethereum from to value fee_price currency nonce db =
      (do
        let input : CreateBlockchainTx f.F64 = record {
          id = clients.generate_transaction_id db.now;
          from = from;
          to = to;
          currency = currency;
          value = value;
          fee_price = fee_price;
          nonce = some nonce;
          utxos = none;
        }
        raw_tx ← ask from_client_kind (clients.sign_transaction input user)
        tx_id ← ask from_client_kind (clients.post_ethereum_transaction raw_tx)
        record_posted input (posted_id currency tx_id))
        db

  unfoldable pub create_ethereum_tx :
      SystemAccounts
      → BlockchainAddress
      → BlockchainAddress
      → Amount
      → f.F64
      → Currency
      → Exec Db BlockchainTransactionId
  create_ethereum_tx system from to value fee_price currency = do
    raise_if (currency == btc) invalid_currency ErrorKind.invalid_input
    initiator ← tx_initiator system currency from
    ethereum_nonce ← ask from_client_kind (clients.get_ethereum_nonce initiator)
    nonce ← take_nonce initiator ethereum_nonce
    send_ethereum from to value fee_price currency nonce
