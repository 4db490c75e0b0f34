-- ===== src/Services/Blockchain/Implementation.antt =====
-- `BlockchainServiceImpl` of services/transactions/blockchain.rs as an implementation of the trait.
use transactions.Prelude.{ℕ, arith, ◌≡◌, ◌∙◌, refl, ◌==◌}
use transactions.Exec.{raise_if, raise_if_state, >>=-keeps, ErrorKind, invalid_currency}
use transactions.Float.{Floats}
use transactions.Models.{BlockchainAddress, Currency, btc, eth, stq, currency_eq}
use transactions.Models.Records.{Amount, PendingBlockchainTransaction}
use transactions.Repos.{Db}
use transactions.Repos.Accounts
use transactions.Repos.Blockchain.{create_pending}
use transactions.Services.Clients.{Clients, ask, from_client_kind}
use transactions.Services.System.{SystemAccounts, get_system_fees_account, get_system_account}
use transactions.Services.Blockchain.{BlockchainService, SameLedger, LeavesLedger}
use transactions.Services.Blockchain.Nonces.{take_nonce}
use transactions.Services.Blockchain.Order.{take_nonce_lem}
use transactions.Services.Blockchain.Sending.{
  create_bitcoin_tx, create_ethereum_tx, send_ethereum, record_posted, tx_initiator, keep_pending,
}
use transactions.Services.Blockchain.Fees.{
  FeesOptions, estimate_withdrawal_fee, in_estimate_currency,
}

keep_pending_leaves :
    (p : PendingBlockchainTransaction) (db : Db) → SameLedger db (keep_pending p db).1
unfolding create_pending
keep_pending_leaves p db = ground arith

take_nonce_leaves : (a : BlockchainAddress) (e : ℕ) (db : Db) → SameLedger db (take_nonce a e db).1
take_nonce_leaves a e db = rw (take_nonce_lem a e db) (refl, refl)

pub SameLedger-trans : (a b c : Db) → SameLedger a b → SameLedger b c → SameLedger a c
SameLedger-trans a b c h k = (k.0 ∙ h.0, k.1 ∙ h.1)

pub tx_initiator_state :
    (system : SystemAccounts) (c : Currency) (from : BlockchainAddress) (db : Db)
    → (tx_initiator system c from db).1 ≡ db
unfolding tx_initiator get_system_fees_account get_system_account Accounts.get
tx_initiator_state system eth from db = refl
tx_initiator_state system btc from db = refl
tx_initiator_state system stq from db = ground arith

module _ (f : Floats) (clients : Clients f) (options : FeesOptions f.F64)
    (system : SystemAccounts) where
  unfoldable pub blockchain_service : BlockchainService f
  unfolding create_bitcoin_tx create_ethereum_tx estimate_withdrawal_fee
  blockchain_service = record {
    create_bitcoin_tx = create_bitcoin_tx f clients;
    create_ethereum_tx = create_ethereum_tx f clients system;
    estimate_withdrawal_fee = estimate_withdrawal_fee f clients options;
  }

  bitcoin_leaves :
      (from to : BlockchainAddress) (value : Amount) (price : f.F64) (db : Db)
      → SameLedger db (create_bitcoin_tx f clients from to value price db).1
  unfolding create_bitcoin_tx create_pending record_posted
  bitcoin_leaves from to value price db = ground arith

  send_ethereum_leaves :
      (from to : BlockchainAddress) (value : Amount) (price : f.F64) (c : Currency) (nonce : ℕ)
      (db : Db)
      → SameLedger db (send_ethereum f clients from to value price c nonce db).1
  unfolding send_ethereum create_pending record_posted
  send_ethereum_leaves from to value price c nonce db = ground arith

  ethereum_leaves :
      (from to : BlockchainAddress) (value : Amount) (price : f.F64) (c : Currency) (db : Db)
      → SameLedger db (create_ethereum_tx f clients system from to value price c db).1
  unfolding create_ethereum_tx
  ethereum_leaves from to value price c db =
      let guard = raise_if (c == btc) invalid_currency ErrorKind.invalid_input in
      >>=-keeps (SameLedger db) guard _ db
        (rw (raise_if_state (c == btc) invalid_currency ErrorKind.invalid_input db) (refl, refl))
        λ u d1 e1 k1.
          >>=-keeps (SameLedger db) (tx_initiator system c from) _ d1
            (rw (tx_initiator_state system c from d1) k1)
            λ a d2 e2 k2.
              >>=-keeps (SameLedger db) (ask from_client_kind (clients.get_ethereum_nonce a)) _ d2
                k2
                λ n d3 e3 k3.
                  >>=-keeps (SameLedger db) (take_nonce a n) _ d3
                    (SameLedger-trans db d3 (take_nonce a n d3).1 k3 (take_nonce_leaves a n d3))
                    λ nonce d4 e4 k4.
                      SameLedger-trans db d4
                        (send_ethereum f clients from to value price c nonce d4).1 k4
                        (send_ethereum_leaves from to value price c nonce d4)

  estimate_leaves :
      (fee : Amount) (from c : Currency) (db : Db)
      → SameLedger db (estimate_withdrawal_fee f clients options fee from c db).1
  unfolding estimate_withdrawal_fee in_estimate_currency
  estimate_leaves fee from c db = ground arith

  -- The blockchain service leaves the accounts and the rows as they are, in each of its operations and
  -- on every branch, whatever the clients answer: it implements what withdrawals ask of it.
  pub blockchain_service-LeavesLedger : LeavesLedger f blockchain_service
  unfolding blockchain_service
  blockchain_service-LeavesLedger = record {
    bitcoin_leaves = bitcoin_leaves;
    ethereum_leaves = ethereum_leaves;
    estimate_leaves = estimate_leaves;
  }
