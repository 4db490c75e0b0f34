-- ===== src/Repos/Blockchain.antt =====
-- The tables of blockchain transactions (repos/blockchain_transactions.rs,
-- repos/pending_blockchain_transactions.rs) and the nonces of repos/key_values.rs. The hash is the
-- primary key of the first two, the key of the third.
use transactions.Prelude.{
  ℕ, Bool, not, Option, none, some, List, [], ◌∷◌, ◌++◌, ◌==◌, nat_eq, if◌then◌else◌, filter, find,
  any,
}
use transactions.Exec.{Exec, ok, err, database, invalid_input}
use transactions.Models.{BlockchainAddress, BlockchainTransactionId}
use transactions.Models.Records.{
  BlockchainTransaction, PendingBlockchainTransaction, stored_blockchain,
}
use transactions.Repos.{Db, Nonce}

unfoldable pub has_hash : BlockchainTransactionId → BlockchainTransaction → Bool
has_hash hash t = t.hash == hash

unfoldable pub has_pending_hash : BlockchainTransactionId → PendingBlockchainTransaction → Bool
has_pending_hash hash t = t.hash == hash

unfoldable pub create_blockchain : BlockchainTransaction → Exec Db BlockchainTransaction
create_blockchain payload db =
    if any (has_hash payload.hash) db.blockchain_transactions
    then (err database invalid_input, db)
    else (
      ok (stored_blockchain payload),
      record db {
        blockchain_transactions = db.blockchain_transactions ++ stored_blockchain payload ∷ [];
      },
    )

abbrev kept_or_added :
    Option BlockchainTransaction → BlockchainTransaction → Db → BlockchainTransaction × Db
kept_or_added (some t) payload db = (t, db)
kept_or_added none payload db = (
  stored_blockchain payload,
  record db {
    blockchain_transactions = db.blockchain_transactions ++ stored_blockchain payload ∷ [];
  },
)

-- On a conflict the row that is there is kept, and returned.
unfoldable pub upsert_blockchain : BlockchainTransaction → Exec Db BlockchainTransaction
unfolding has_hash
upsert_blockchain payload db =
    let r = kept_or_added (find (has_hash payload.hash) db.blockchain_transactions) payload db in
    (ok r.0, r.1)

unfoldable pub get_blockchain : BlockchainTransactionId → Exec Db (Option BlockchainTransaction)
get_blockchain hash db = (ok (find (has_hash hash) db.blockchain_transactions), db)

unfoldable pub create_pending : PendingBlockchainTransaction → Exec Db PendingBlockchainTransaction
create_pending payload db =
    if any (has_pending_hash payload.hash) db.pending_blockchain_transactions
    then (err database invalid_input, db)
    else (
      ok payload,
      record db {
        pending_blockchain_transactions = db.pending_blockchain_transactions ++ payload ∷ [];
      },
    )

unfoldable pub get_pending : BlockchainTransactionId → Exec Db (Option PendingBlockchainTransaction)
get_pending hash db = (ok (find (has_pending_hash hash) db.pending_blockchain_transactions), db)

unfoldable pub delete_pending :
    BlockchainTransactionId → Exec Db (Option PendingBlockchainTransaction)
delete_pending hash db = (
  ok (find (has_pending_hash hash) db.pending_blockchain_transactions),
  record db {
    pending_blockchain_transactions =
        filter (λ t. not (has_pending_hash hash t)) db.pending_blockchain_transactions;
  },
)

unfoldable pub find_nonce : BlockchainAddress → List Nonce → Option Nonce
find_nonce address [] = none
find_nonce address (n ∷ rest) = if n.address == address then some n else find_nonce address rest

-- `ON CONFLICT (key) DO UPDATE SET value`; the trigger sets `updated_at` where a value has changed.
unfoldable pub put_nonce : BlockchainAddress → ℕ → ℕ → List Nonce → List Nonce
put_nonce address nonce now [] = record { address = address; value = nonce; updated_at = now } ∷ []
put_nonce address nonce now (n ∷ rest) =
    let later = put_nonce address nonce now rest in
    if n.address == address
    then record n { value = nonce; updated_at = if n.value == nonce then n.updated_at else now }
      ∷ rest
    else n ∷ later

unfoldable pub get_nonce : BlockchainAddress → Exec Db (Option Nonce)
get_nonce address db = (ok (find_nonce address db.nonces), db)

unfoldable pub set_nonce : BlockchainAddress → ℕ → Exec Db ℕ
set_nonce address nonce db =
    (ok nonce, record db { nonces = put_nonce address nonce db.now db.nonces })
