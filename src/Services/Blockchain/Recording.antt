-- ===== src/Services/Blockchain/Recording.antt =====
-- What is kept of a transaction that was posted (services/transactions/blockchain.rs).
use transactions.Prelude.{
  ℕ, ◌≡◌, ◌∙◌, ap, inl, inr, refl, Option, none, some, ◌==◌, any, find, find-append_one, find-any,
  find-eq-none, Bool-cases, nat_eq, nat_beq_iff,
}
use transactions.Exec.{
  Result, ok, err, ◌>>=◌, raise_if, raise_if_state, ErrorContext, ErrorKind, invalid_currency,
  >>=-ends,
}
use transactions.Float.{Floats}
use transactions.Models.{BlockchainAddress, BlockchainTransactionId, Currency, btc, currency_eq}
use transactions.Models.Records.{Amount, Time, PendingBlockchainTransaction}
use transactions.Models.Sending.{CreateBlockchainTx, new_pending, user}
use transactions.Repos.{Db}
use transactions.Repos.Blockchain.{create_pending, has_pending_hash}
use transactions.Services.Clients.{
  Clients, ClientErrorKind, Reply, Reply-cases, ask, ask_then, from_client_kind,
}
use transactions.Services.System.{SystemAccounts}
use transactions.Services.Blockchain.Nonces.{take_nonce}
use transactions.Services.Blockchain.Fees.{FeesOptions}
use transactions.Services.Blockchain.Implementation.{blockchain_service, tx_initiator_state}
use transactions.Services.Blockchain.Order.{take_nonce_lem}
use transactions.Services.Blockchain.Sending.{
  create_bitcoin_tx, create_ethereum_tx, send_ethereum, tx_initiator, keep_pending, posted_id,
  record_posted,
}

abbrev pub pending_for : BlockchainTransactionId → Db → Option PendingBlockchainTransaction
pending_for hash db = find (has_pending_hash hash) db.pending_blockchain_transactions

abbrev pub pending_row :
    BlockchainAddress
    → BlockchainAddress
    → Currency
    → Amount
    → BlockchainTransactionId
    → PendingBlockchainTransaction
pending_row from to currency value hash = record {
  hash = hash;
  from = from;
  to = to;
  currency = currency;
  value = value;
  fee = 0;
  erc20_operation_kind = none;
}

-- With the returned hash stands a pending row: the one that was there, else a new one.
abbrev pub kept_row :
    BlockchainAddress
    → BlockchainAddress
    → Currency
    → Amount
    → BlockchainTransactionId
    → Option PendingBlockchainTransaction
    → PendingBlockchainTransaction
kept_row from to currency value hash none = pending_row from to currency value hash
kept_row from to currency value hash (some p) = p

abbrev pub Recorded :
    BlockchainAddress
    → BlockchainAddress
    → Currency
    → Amount
    → Db
    → Result BlockchainTransactionId × Db
    → Type 0
Recorded from to currency value db (ok hash, db') =
    pending_for hash db' ≡ some (kept_row from to currency value hash (pending_for hash db))
Recorded from to currency value db (err c k, db') =
    db'.pending_blockchain_transactions ≡ db.pending_blockchain_transactions

keep_pending_lem :
    (from to : BlockchainAddress) (c : Currency) (value : Amount) (hash : BlockchainTransactionId)
    (db : Db)
    → pending_for hash (keep_pending (pending_row from to c value hash) db).1
      ≡ some (kept_row from to c value hash (pending_for hash db))
unfolding create_pending has_pending_hash
keep_pending_lem from to c value hash db =
    let p = has_pending_hash hash in
    let l = db.pending_blockchain_transactions in
    elim (Bool-cases (any p l)) [
      | inl e ↦ let (a, k) = find-any p l e in rw (e, k) refl
      | inr e ↦
          rw (e, find-eq-none p l e)
            (find-append_one p l (pending_row from to c value hash) e
              ((nat_beq_iff hash hash).1 refl))
    ]

module _ (f : Floats) (clients : Clients f) (from to : BlockchainAddress) (value : Amount)
    (db : Db) where
  -- The transaction is signed and posted, and what was posted is kept.
  sent-Recorded :
      (c : Currency) (input : CreateBlockchainTx f.F64)
      (post : clients.Raw → Time → Reply ClientErrorKind BlockchainTransactionId)
      (name : BlockchainTransactionId → BlockchainTransactionId)
      → input.from ≡ from
      → input.to ≡ to
      → input.currency ≡ c
      → input.value ≡ value
      → Recorded from to c value db (
          (do
            raw ← ask from_client_kind (clients.sign_transaction input user)
            id ← ask from_client_kind (post raw)
            record_posted f clients input (name id))
            db)
  unfolding record_posted new_pending
  sent-Recorded c input post name ef et ec ev =
      let P = Recorded from to c value db in
      let last = λ (id : BlockchainTransactionId). record_posted f clients input (name id) in
      ask_then P from_client_kind (clients.sign_transaction input user)
        (λ raw. ask from_client_kind (post raw) >>= last) db (λ x k. refl)
        λ raw.
          ask_then P from_client_kind (post raw) last db (λ x k. refl)
            λ id. rw (ef, et, ec, ev) (keep_pending_lem from to c value (name id) db)

  bitcoin-Recorded :
      (price : f.F64)
      → Recorded from to btc value db (create_bitcoin_tx f clients from to value price db)
  unfolding create_bitcoin_tx
  bitcoin-Recorded price = elim (Reply-cases (clients.get_bitcoin_utxos from db.now)) [
    | inl (k, e) ↦ rw e refl
    | inr (us, e) ↦ rw e (
        sent-Recorded btc
          (record {
            id = clients.generate_transaction_id db.now;
            from = from;
            to = to;
            currency = btc;
            value = value;
            fee_price = price;
            nonce = none;
            utxos = some us;
          })
          clients.post_bitcoin_transaction (λ id. id) refl refl refl refl)
  ]

  send-Recorded :
      (c : Currency) (price : f.F64) (nonce : ℕ)
      → Recorded from to c value db (send_ethereum f clients from to value price c nonce db)
  unfolding send_ethereum
  send-Recorded c price nonce =
      sent-Recorded c
        (record {
          id = clients.generate_transaction_id db.now;
          from = from;
          to = to;
          currency = c;
          value = value;
          fee_price = price;
          nonce = some nonce;
          utxos = none;
        })
        clients.post_ethereum_transaction (posted_id c) refl refl refl refl

-- The pending rows before may be those of another state with the same.
moved :
    (from to : BlockchainAddress) (c : Currency) (value : Amount) (db d : Db)
    (r : Result BlockchainTransactionId × Db)
    → d.pending_blockchain_transactions ≡ db.pending_blockchain_transactions
    → Recorded from to c value d r
    → Recorded from to c value db r
moved from to c value db d (ok hash, db') e h =
    h ∙ ap (λ l. some (kept_row from to c value hash (find (has_pending_hash hash) l))) e
moved from to c value db d (err x k, db') e h = h ∙ e

module _ (f : Floats) (clients : Clients f) (system : SystemAccounts) where
  ethereum-Recorded :
      (from to : BlockchainAddress) (value : Amount) (price : f.F64) (c : Currency) (db : Db)
      → Recorded from to c value db (create_ethereum_tx f clients system from to value price c db)
  unfolding create_ethereum_tx
  ethereum-Recorded from to value price c db =
      let P = Recorded from to c value db in
      let K = λ (d : Db). d.pending_blockchain_transactions ≡ db.pending_blockchain_transactions in
      let failed = λ (x : ErrorContext) (k : ErrorKind) (d : Db) (h : K d). h in
      >>=-ends P K (raise_if (c == btc) invalid_currency ErrorKind.invalid_input) _ db
        (rw (raise_if_state (c == btc) invalid_currency ErrorKind.invalid_input db) refl) failed
        λ u d1 e1 k1.
          >>=-ends P K (tx_initiator system c from) _ d1
            (rw (tx_initiator_state system c from d1) k1) failed
            λ a d2 e2 k2.
              >>=-ends P K (ask from_client_kind (clients.get_ethereum_nonce a)) _ d2 k2 failed
                λ n d3 e3 k3.
                  >>=-ends P K (take_nonce a n) _ d3 (rw (take_nonce_lem a n d3) k3) failed
                    λ nonce d4 e4 k4.
                      moved from to c value db d4
                        (send_ethereum f clients from to value price c nonce d4) k4
                        (send-Recorded f clients from to value d4 c price nonce)

  -- The blockchain service, whatever the clients answer: where a transaction was sent, a pending row
  -- stands under the hash that is returned, the one that was there or else one with the addresses, the
  -- currency and the value that were asked for; where sending failed, also after a nonce was taken, the
  -- pending rows are as before.
  pub blockchain_service_records :
      (options : FeesOptions f.F64) (from to : BlockchainAddress) (value : Amount) (price : f.F64)
      (c : Currency) (db : Db)
      → Recorded from to btc value db
          ((blockchain_service f clients options system).create_bitcoin_tx from to value price db)
        × Recorded from to c value db (
            (blockchain_service f clients options system).create_ethereum_tx from to value price c
              db)
  unfolding blockchain_service
  blockchain_service_records options from to value price c db = (
    bitcoin-Recorded f clients from to value db price,
    ethereum-Recorded from to value price c db,
  )
