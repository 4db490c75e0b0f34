-- ===== src/Services/Blockchain/Nonces.antt =====
-- The nonce that a transaction from an Ethereum address is given (`create_ethereum_tx` of
-- services/transactions/blockchain.rs, `send_erc20_approval` of services/rabbit.rs): the larger of
-- the one that is stored and the one of the blockchain, or the latter where the stored one has not
-- moved for a minute. What is stored afterwards is one more.
use transactions.Prelude.{ℕ, ◌+◌, ◌-◌, ◌%◌, ◌^◌, max, Option, none, some, ltb, if◌then◌else◌}
use transactions.Exec.{Exec, pure, as_internal, ◌>>=◌, ◌>>◌}
use transactions.Models.{BlockchainAddress}
use transactions.Repos.{Db, Nonce}
use transactions.Repos.Blockchain.{get_nonce, set_nonce}

-- One more than `u64::max_value()`.
abbrev pub u64_mod : ℕ
u64_mod = 2 ^ 64

unfoldable pub choose_nonce : BlockchainAddress → ℕ → Option Nonce → Exec Db ℕ
choose_nonce tx_initiator ethereum_nonce none db = pure ethereum_nonce db
choose_nonce tx_initiator ethereum_nonce (some db_nonce) db =
    if ltb 60 (db.now - db_nonce.updated_at)
    then (as_internal (set_nonce tx_initiator ethereum_nonce) >> pure ethereum_nonce) db
    else pure (max db_nonce.value ethereum_nonce) db

unfoldable pub take_nonce : BlockchainAddress → ℕ → Exec Db ℕ
take_nonce tx_initiator ethereum_nonce = do
  maybe_db_nonce ← as_internal (get_nonce tx_initiator)
  nonce ← choose_nonce tx_initiator ethereum_nonce maybe_db_nonce
  as_internal (set_nonce tx_initiator ((nonce + 1) % u64_mod))
  pure nonce
