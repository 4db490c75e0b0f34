-- ===== src/Services/Converter.antt =====
-- services/transactions/converter.rs: a group of rows as one transaction for the client.
pub mod Internal
pub mod External
pub mod Reading
use transactions.Prelude.{Bool, Option, none, some, List, [], ◌∷◌, ◌==◌, nat_eq, all}
use transactions.Exec.{
  Exec, raise, ok_or, ◌>>=◌, ◌>>◌, invalid_transaction_structure, panicked, ErrorKind, internal,
}
use transactions.Models.{
  TransactionGroupKind, deposit, internal_multi, withdrawal, withdrawal_multi, approval, reversal,
}
use transactions.Models.Records.{Transaction, TransactionOut}
use transactions.Repos.{Db}
use transactions.Services.Converter.Internal.{
  require_that, convert_deposit_transaction, convert_internal_transaction,
  convert_internal_multi_transaction,
}
use transactions.Services.Converter.External.{
  convert_external_transaction, convert_external_multi_transaction, convert_reversal_transaction,
}

-- `transactions[0]`, which panics on an empty group.
abbrev pub head : List Transaction → Option Transaction
head [] = none
head (t ∷ ts) = some t

unfoldable pub convert_group : TransactionGroupKind → List Transaction → Exec Db TransactionOut
convert_group TransactionGroupKind.deposit transactions = convert_deposit_transaction transactions
convert_group TransactionGroupKind.internal transactions = convert_internal_transaction transactions
convert_group TransactionGroupKind.internal_multi transactions =
    convert_internal_multi_transaction transactions
convert_group TransactionGroupKind.withdrawal transactions =
    convert_external_transaction transactions
convert_group TransactionGroupKind.withdrawal_multi transactions =
    convert_external_multi_transaction transactions
convert_group TransactionGroupKind.reversal transactions = convert_reversal_transaction transactions
convert_group TransactionGroupKind.approval transactions =
    raise invalid_transaction_structure ErrorKind.internal

unfoldable pub convert_transaction : List Transaction → Exec Db TransactionOut
convert_transaction transactions = do
  tx ← ok_or panicked ErrorKind.internal (head transactions)
  require_that (all (λ (t : Transaction). tx.gid == t.gid) transactions)
  convert_group tx.group_kind transactions
