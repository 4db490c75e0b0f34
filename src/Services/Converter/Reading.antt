-- ===== src/Services/Converter/Reading.antt =====
-- services/transactions/converter.rs: the conversion of a group only reads the tables.
use transactions.Models.{TransactionGroupKind}
use transactions.Repos.Blockchain.{get_blockchain, get_pending}
use transactions.Services.Converter.External.{
  convert_external_transaction, aggregates, convert_reversal_transaction,
  convert_external_multi_transaction, is_exchange,
}
use transactions.Services.Converter.Internal.{
  convert_internal_transaction, require_that, get_known_account, convert_internal_multi_transaction,
  convert_deposit_transaction,
}
use transactions.Services.Converter.{convert_transaction, convert_group, head}
use transactions.Models.Records.{Transaction}
use transactions.Repos.Accounts
use transactions.Prelude.{refl, not, List, filter, ◌==◌, all, nat_eq, arith}
use transactions.Exec.{ok_or, raise_if_state, ErrorKind, panicked}
use transactions.Exec.Reading.{ReadsOnly, ok_or-ReadsOnly, >>=-ReadsOnly}

convert_deposit_transaction-ReadsOnly :
    (txs : List Transaction) → ReadsOnly (convert_deposit_transaction txs)
unfolding convert_deposit_transaction get_blockchain Accounts.get
convert_deposit_transaction-ReadsOnly txs d = ground arith

convert_internal_transaction-ReadsOnly :
    (txs : List Transaction) → ReadsOnly (convert_internal_transaction txs)
unfolding convert_internal_transaction get_known_account Accounts.get
convert_internal_transaction-ReadsOnly txs d = ground arith

convert_internal_multi_transaction-ReadsOnly :
    (txs : List Transaction) → ReadsOnly (convert_internal_multi_transaction txs)
unfolding convert_internal_multi_transaction get_known_account Accounts.get
convert_internal_multi_transaction-ReadsOnly txs d = ground arith

convert_reversal_transaction-ReadsOnly :
    (txs : List Transaction) → ReadsOnly (convert_reversal_transaction txs)
unfolding convert_reversal_transaction Accounts.get get_blockchain aggregates
convert_reversal_transaction-ReadsOnly txs d = ground arith

convert_external_transaction-ReadsOnly :
    (txs : List Transaction) → ReadsOnly (convert_external_transaction txs)
unfolding convert_external_transaction Accounts.get get_blockchain get_pending aggregates
convert_external_transaction-ReadsOnly txs d = ground arith

convert_external_multi_transaction-ReadsOnly :
    (txs : List Transaction) → ReadsOnly (convert_external_multi_transaction txs)
unfolding convert_external_multi_transaction
convert_external_multi_transaction-ReadsOnly txs =
    >>=-ReadsOnly (convert_internal_multi_transaction (filter is_exchange txs)) _
      (convert_internal_multi_transaction-ReadsOnly (filter is_exchange txs))
      (λ a.
        >>=-ReadsOnly (convert_external_transaction (filter (λ t. not (is_exchange t)) txs)) _
          (convert_external_transaction-ReadsOnly (filter (λ t. not (is_exchange t)) txs))
          (λ b d. refl))

convert_group-ReadsOnly :
    (kind : TransactionGroupKind) (txs : List Transaction) → ReadsOnly (convert_group kind txs)
unfolding convert_group
convert_group-ReadsOnly TransactionGroupKind.deposit txs = convert_deposit_transaction-ReadsOnly txs
convert_group-ReadsOnly TransactionGroupKind.internal txs =
    convert_internal_transaction-ReadsOnly txs
convert_group-ReadsOnly TransactionGroupKind.internal_multi txs =
    convert_internal_multi_transaction-ReadsOnly txs
convert_group-ReadsOnly TransactionGroupKind.withdrawal txs =
    convert_external_transaction-ReadsOnly txs
convert_group-ReadsOnly TransactionGroupKind.withdrawal_multi txs =
    convert_external_multi_transaction-ReadsOnly txs
convert_group-ReadsOnly TransactionGroupKind.reversal txs =
    convert_reversal_transaction-ReadsOnly txs
convert_group-ReadsOnly TransactionGroupKind.approval txs = λ d. refl

pub convert_transaction-ReadsOnly : (txs : List Transaction) → ReadsOnly (convert_transaction txs)
unfolding convert_transaction
convert_transaction-ReadsOnly txs =
    >>=-ReadsOnly (ok_or panicked ErrorKind.internal (head txs)) _
      (ok_or-ReadsOnly panicked ErrorKind.internal (head txs))
      (λ tx.
        >>=-ReadsOnly (require_that (all (λ (t : Transaction). tx.gid == t.gid) txs)) _
          (raise_if_state _ _ _) (λ u. convert_group-ReadsOnly tx.group_kind txs))
