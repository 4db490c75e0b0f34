-- ===== src/Repos/Seen.antt =====
-- The tables of hashes that were handled (repos/seen_hashes.rs), by hash and currency, and of
-- blockchain transactions that broke an invariant (repos/strange_blockchain_transactions.rs), by hash.
use transactions.Prelude.{
  ℕ, Bool, ◌&&◌, Option, [], ◌∷◌, ◌++◌, ◌==◌, nat_eq, if◌then◌else◌, find, any, length,
}
use transactions.Exec.{Exec, ok, err, database, invalid_input}
use transactions.Models.{BlockchainTransactionId, Currency, currency_eq}
use transactions.Models.Records.{SeenHash, StrangeBlockchainTransaction}
use transactions.Repos.{Db}

unfoldable pub is_seen_as : BlockchainTransactionId → Currency → SeenHash → Bool
is_seen_as hash currency s = s.hash == hash && s.currency == currency

unfoldable pub create_seen : SeenHash → Exec Db SeenHash
create_seen payload db =
    if any (is_seen_as payload.hash payload.currency) db.seen_hashes
    then (err database invalid_input, db)
    else (ok payload, record db { seen_hashes = db.seen_hashes ++ payload ∷ [] })

abbrev kept_or_added : Option SeenHash → SeenHash → Db → SeenHash × Db
kept_or_added (Option.some s) payload db = (s, db)
kept_or_added Option.none payload db =
    (payload, record db { seen_hashes = db.seen_hashes ++ payload ∷ [] })

-- On a conflict the row that is there is kept, and returned.
unfoldable pub upsert_seen : SeenHash → Exec Db SeenHash
upsert_seen payload db =
    let r =
      kept_or_added (find (is_seen_as payload.hash payload.currency) db.seen_hashes) payload db in
    (ok r.0, r.1)

unfoldable pub get_seen : BlockchainTransactionId → Currency → Exec Db (Option SeenHash)
get_seen hash currency db = (ok (find (is_seen_as hash currency) db.seen_hashes), db)

unfoldable pub is_strange : BlockchainTransactionId → StrangeBlockchainTransaction → Bool
is_strange hash s = s.hash == hash

unfoldable pub create_strange : StrangeBlockchainTransaction → Exec Db StrangeBlockchainTransaction
create_strange payload db =
    if any (is_strange payload.hash) db.strange_blockchain_transactions
    then (err database invalid_input, db)
    else (
      ok payload,
      record db {
        strange_blockchain_transactions = db.strange_blockchain_transactions ++ payload ∷ [];
      },
    )

unfoldable pub count_strange : Exec Db ℕ
count_strange db = (ok (length db.strange_blockchain_transactions), db)

unfoldable pub get_strange : BlockchainTransactionId → Exec Db (Option StrangeBlockchainTransaction)
get_strange hash db = (ok (find (is_strange hash) db.strange_blockchain_transactions), db)
