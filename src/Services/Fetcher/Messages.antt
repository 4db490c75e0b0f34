-- ===== src/Services/Fetcher/Messages.antt =====
-- `handle_message` and `handle_transaction` of services/rabbit.rs: a message is parsed, handled in a
-- database transaction, and what was written of it is published and approved.
use transactions.Prelude.{ℕ, Option, none, some, List, [], ◌∷◌}
use transactions.Exec.{
  Exec, ok, pure, ok_or, execute_transaction, ◌>>=◌, ◌>>◌, internal, utf8, json,
}
use Prim.Native.String.{String}
use transactions.Float.{Floats}
use transactions.Models.{AccountId, TransactionId}
use transactions.Models.Records.{Account, BlockchainTransaction, Transaction, TransactionOut}
use transactions.Repos.{Db}
use transactions.Services.Clients.{Clients}
use transactions.Services.Converter.{convert_transaction}
use transactions.Services.Fetcher.Approval.{ApproveGas, send_erc20_approval}
use transactions.Services.Fetcher.Handling.{handle_in_transaction}
use transactions.Services.System.{SystemAccounts}

-- What the libraries for text and JSON read out of the bytes of a message.
pub record Parsers : Type 0 where
  pub from_utf8 : List ℕ → Option String
  pub from_json : String → Option BlockchainTransaction

unfoldable pub parse_transaction : Parsers → List ℕ → Exec Db BlockchainTransaction
parse_transaction parsers bytes = do
  string ← ok_or utf8 internal (parsers.from_utf8 bytes)
  ok_or json internal (parsers.from_json string)

module _ (f : Floats) (clients : Clients f) (system : SystemAccounts) (gas : ApproveGas f.F64)
    (generated : AccountId → TransactionId) where
  -- `for_each`: the first error ends the approvals.
  unfoldable pub send_approvals : List Account → Exec Db (Unit {0})
  send_approvals [] = pure tt
  send_approvals (account ∷ rest) =
      send_erc20_approval f clients system gas account >> send_approvals rest

  -- An error of the approvals is only logged.
  unfoldable pub handle_transaction : BlockchainTransaction → Exec Db (List Transaction)
  handle_transaction blockchain_tx = do
    handled ← execute_transaction (handle_in_transaction system generated f blockchain_tx)
    λ db. (ok handled.0, (send_approvals handled.1 db).1)

  -- The transaction that is handed to the publisher, whose errors are only logged.
  unfoldable pub publication : List Transaction → Exec Db (Option TransactionOut)
  publication [] = pure none
  publication (tx ∷ txs) = do tx_out ← convert_transaction (tx ∷ txs); pure (some tx_out)

  unfoldable pub handle_message : Parsers → List ℕ → Exec Db (Option TransactionOut)
  handle_message parsers bytes = do
    blockchain_tx ← parse_transaction parsers bytes
    txs ← handle_transaction blockchain_tx
    publication txs
