-- ===== src/Repos/Tables.antt =====
-- The tables (schema.rs, migrations/). Rows stand in the order of insertion, which is the order that
-- a query without `ORDER BY` returns them in. `now` is the clock of the server.
use transactions.Prelude.{ℕ, List, ltb, if◌then◌else◌}
use transactions.Exec.{Exec, ok, err, database, internal}
use transactions.Models.{BlockchainAddress}
use transactions.Models.Records.{
  User, Account, Transaction, BlockchainTransaction, PendingBlockchainTransaction, SeenHash,
  StrangeBlockchainTransaction, Time, Amount,
}
use transactions.Amount.{u128_mod}

-- A row `nonce:<address>` of `key_values`.
pub record Nonce : Type 0 where
  pub address : BlockchainAddress
  pub value : ℕ
  pub updated_at : Time

pub record Db : Type 0 where
  pub users : List User
  pub accounts : List Account
  pub transactions : List Transaction
  pub blockchain_transactions : List BlockchainTransaction
  pub pending_blockchain_transactions : List PendingBlockchainTransaction
  pub strange_blockchain_transactions : List StrangeBlockchainTransaction
  pub seen_hashes : List SeenHash
  pub nonces : List Nonce
  pub now : Time

-- `FromSql<Numeric, Pg> for Amount` on a whole number: one that does not fit is a query error.
abbrev pub read_numeric : ℕ → Exec Db Amount
read_numeric n db = (if ltb n u128_mod then ok n else err database internal, db)
