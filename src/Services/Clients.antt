-- ===== src/Services/Clients.antt =====
-- The clients of the other services (client/keys, client/blockchain_gateway, client/exchange),
-- which are parameters: what they answer depends on the time, and they do not touch the database.
-- Their errors are turned into those of services/error.rs.
use transactions.Prelude.{ℕ, List, ◌≡◌, ◌⊎◌, inl, inr, refl}
use transactions.Exec.{Exec, Result, ok, err, client, ErrorContext, ErrorKind, ◌>>=◌}
use transactions.Float.{Floats}
use transactions.Models.{BlockchainAddress, BlockchainTransactionId, TransactionId, ExchangeId}
use transactions.Models.Records.{Time}
use transactions.Models.Sending.{CreateBlockchainTx, ApproveInput, BitcoinUtxos, RateInput, Role}
use transactions.Repos.{Db}

-- `ErrorKind` of client/keys/error.rs, client/blockchain_gateway/error.rs and client/fees/error.rs.
pub data ClientErrorKind : Type 0 where
  malformed_input unauthorized internal : ClientErrorKind

-- `ErrorKind` of client/exchange/error.rs, the text of `Validation` left out.
pub data ExchangeClientErrorKind : Type 0 where
  malformed_input unauthorized internal validation : ExchangeClientErrorKind

pub data Reply (K A : Type 0) : Type 0 where
  answered : A → Reply K A
  failed : K → Reply K A

-- `From<KeysClientErrorKind> for ErrorKind`, and the same for the two other clients.
unfoldable pub from_client_kind : ClientErrorKind → ErrorKind
from_client_kind ClientErrorKind.malformed_input = ErrorKind.internal
from_client_kind ClientErrorKind.unauthorized = ErrorKind.internal
from_client_kind ClientErrorKind.internal = ErrorKind.internal

-- `From<ExchangeClientErrorKind> for ErrorKind`
unfoldable pub from_exchange_kind : ExchangeClientErrorKind → ErrorKind
from_exchange_kind ExchangeClientErrorKind.malformed_input = ErrorKind.internal
from_exchange_kind ExchangeClientErrorKind.unauthorized = ErrorKind.internal
from_exchange_kind ExchangeClientErrorKind.internal = ErrorKind.internal
from_exchange_kind ExchangeClientErrorKind.validation = ErrorKind.invalid_input

abbrev pub reply_result : {K A : Type 0} → (K → ErrorKind) → Reply K A → Result A
reply_result kind (answered a) = ok a
reply_result kind (failed k) = err client (kind k)

-- A call of a client: the database stays as it is.
abbrev pub ask : {K A : Type 0} → (K → ErrorKind) → (Time → Reply K A) → Exec Db A
ask kind call db = (reply_result kind (call db.now), db)

pub record Clients (f : Floats) : Type 1 where
  pub Raw : Type 0
  pub sign_transaction : CreateBlockchainTx f.F64 → Role → Time → Reply ClientErrorKind Raw
  pub approve : ApproveInput f.F64 → Role → Time → Reply ClientErrorKind Raw
  pub post_ethereum_transaction : Raw → Time → Reply ClientErrorKind BlockchainTransactionId
  pub post_bitcoin_transaction : Raw → Time → Reply ClientErrorKind BlockchainTransactionId
  pub get_bitcoin_utxos : BlockchainAddress → Time → Reply ClientErrorKind (List BitcoinUtxos)
  pub get_ethereum_nonce : BlockchainAddress → Time → Reply ClientErrorKind ℕ
  pub rate : RateInput → Role → Time → Reply ExchangeClientErrorKind f.F64
  -- `Uuid::new_v4`
  pub generate_transaction_id : Time → TransactionId
  pub generate_exchange_id : Time → ExchangeId

-- What holds after the error of a client, and after each of its answers, holds after the call.
pub ask_then :
    {K A B : Type 0} (P : Result B × Db → Type 0) (kind : K → ErrorKind) (call : Time → Reply K A)
    (f : A → Exec Db B) (db : Db)
    → ((c : ErrorContext) (k : ErrorKind) → P (err c k, db))
    → ((a : A) → P (f a db))
    → P ((ask kind call >>= f) db)
ask_then {K} {A} P kind call f db e o = go (call db.now)
  where
    go : (r : Reply K A) → P (((λ (d : Db). (reply_result kind r, d)) >>= f) db)
    go (answered a) = o a
    go (failed k) = e client (kind k)

pub Reply-cases :
    {K A : Type 0} (r : Reply K A) → ((k : K) × (r ≡ failed k)) ⊎ ((a : A) × (r ≡ answered a))
Reply-cases (failed k) = inl (k, refl)
Reply-cases (answered a) = inr (a, refl)
