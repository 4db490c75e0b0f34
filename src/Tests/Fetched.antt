-- ===== src/Tests/Fetched.antt =====
-- Blockchain transactions that are reported to the small bank.
use transactions.Services.System.{get_system_fees_account, get_system_account, fees_account_id}
use transactions.Repos.Blockchain.{
  get_pending, has_pending_hash, create_blockchain, has_hash, delete_pending,
}
use transactions.Repos.Accounts.{with_id}
use transactions.Services.Fetcher.Confirmations.{
  required_confirmations, to_usd_approx, thresholds_of, confirmations_for,
}
use transactions.Services.Blockchain.Recording.{pending_row}
use transactions.Services.Fetcher.Deposits.{Booked, handle_deposit-Booked}
use transactions.Services.Fetcher.Settling.{
  Handled, handle_withdrawal, settle_withdrawal, finish_withdrawal, get_fees_account_dr,
  fees_currency, blockchain_fee_tx,
}
use transactions.Services.Fetcher.Violations.{
  verify_deposit_tx, verify_withdrawal_tx, verify_addresses, verify_managed, verify_external,
}
use transactions.Models.Normalization.{
  value, insert_entry, sort_addresses, insert_address, remove_addresses, remove_address, distinct,
}
use transactions.Services.Fetcher.Depositing.{
  handle_deposit, handle_matched, deposit_unless, deposit_loop, deposit_to, deposit_tx, record_once,
  needs_approval,
}
use transactions.Repos.Seen.{get_seen, is_seen_as, create_seen}
use transactions.Amount.{checked_add, checked_sum, checked_sum_from, add_to}
use transactions.Models.Normalization.{
  normalized, unify_from_to, add_entries, add_entry, with_value, put_entry, sort_entries,
}
use transactions.Services.Fetcher.Handling.{handle_in_transaction, handle_unseen, handle_known}
use transactions.Models.{btc, TransactionKind, TransactionGroupKind, TransactionStatus}
use transactions.Repos.Transactions.{
  transaction_row, has_blockchain_tx, id_taken, references_exist, set_status, with_status,
}
use transactions.Services.Fetcher.Again.{handle_transaction_again}
use transactions.Models.Records.{
  stored_blockchain, through_i32, Transaction, BlockchainTransaction, seen_of, stored_blockchain,
  through_i32,
}
use transactions.Repos.{Db}
use transactions.Services.Fetcher.Messages.{handle_transaction, send_approvals}
use transactions.Services.Fetcher.Approval.{ApproveGas}
use transactions.Tests.Payouts.{system, vault}
use transactions.Services.Fetcher.Finishing.{Outcome, handle_withdrawal-Outcome}
use transactions.Tests.{numbers, empty, payment}
use transactions.Tests.Sending.{echo}
use transactions.Prelude.{ℕ, ◌+◌, ◌≡◌, refl, none, some, [], ◌∷◌, nat_eq}
use transactions.Repos.Transactions
use transactions.Repos.Accounts
use transactions.Exec.{ok}

abbrev paid_in : BlockchainTransaction
paid_in = record {
  hash = 77;
  from = 999 ∷ [];
  to = record { address = 100; value = 25 } ∷ record { address = 998; value = 3 } ∷ [];
  block_number = 1;
  currency = btc;
  fee = 2;
  confirmations = 0;
  erc20_operation_kind = none;
}

abbrev ids : ℕ → ℕ
ids id = id + 1000

abbrev deposit_row : Transaction
deposit_row = record (transaction_row empty (payment 1011 11 10 25)) {
  blockchain_tx_id = some 77;
  kind = TransactionKind.deposit;
  group_kind = TransactionGroupKind.deposit;
}

abbrev paid_bank : Db
paid_bank = record empty {
  transactions = deposit_row ∷ [];
  blockchain_transactions = paid_in ∷ [];
  seen_hashes = seen_of paid_in ∷ [];
}

abbrev no_gas : ApproveGas ℕ
no_gas = record { price = 0; limit = 0 }

test_deposit :
    handle_transaction numbers echo system no_gas ids paid_in empty
    ≡ (ok (deposit_row ∷ []), paid_bank)
unfolding handle_transaction handle_in_transaction normalized unify_from_to add_entries add_entry
    with_value checked_add put_entry get_seen is_seen_as handle_unseen
    Transactions.get_by_blockchain_tx has_blockchain_tx handle_known handle_deposit
    Accounts.get_by_addresses handle_matched sort_entries insert_entry sort_addresses insert_address
    remove_addresses remove_address distinct verify_deposit_tx deposit_unless deposit_loop
    deposit_to deposit_tx record_once needs_approval Accounts.get_by_address Transactions.create
    transaction_row id_taken references_exist with_id create_blockchain stored_blockchain
    through_i32 has_hash create_seen seen_of send_approvals
test_deposit = refl

handle_transaction_again_example :
    handle_transaction numbers echo system no_gas ids paid_in paid_bank ≡ (ok [], paid_bank)
handle_transaction_again_example =
    handle_transaction_again numbers echo system no_gas ids paid_in empty (deposit_row ∷ [])
      paid_bank test_deposit

test_booked : handle_deposit ids paid_in paid_in empty ≡ (ok (deposit_row ∷ [], []), paid_bank)
unfolding is_seen_as handle_deposit Accounts.get_by_addresses handle_matched verify_deposit_tx
    deposit_unless deposit_loop deposit_to deposit_tx record_once needs_approval
    Accounts.get_by_address Transactions.create transaction_row id_taken references_exist with_id
    create_blockchain stored_blockchain through_i32 has_hash create_seen seen_of
test_booked = refl

handle_deposit-Booked_example : Booked ids paid_in paid_in empty (deposit_row ∷ []) paid_bank
handle_deposit-Booked_example =
    handle_deposit-Booked ids paid_in paid_in empty (deposit_row ∷ [], []) paid_bank test_booked

-- A withdrawal of 25 from the wallet, pending, and what the blockchain reports of it.
abbrev sent_out : BlockchainTransaction
sent_out = record {
  hash = 88;
  from = 100 ∷ [];
  to = record { address = 999; value = 25 } ∷ [];
  block_number = 2;
  currency = btc;
  fee = 4;
  confirmations = 1;
  erc20_operation_kind = none;
}

abbrev withdrawal_row : TransactionStatus → Transaction
withdrawal_row status = record (transaction_row empty (payment 900 10 11 25)) {
  blockchain_tx_id = some 88;
  status = status;
  kind = TransactionKind.withdrawal;
  group_kind = TransactionGroupKind.withdrawal;
}

abbrev fee_row : Transaction
fee_row = record (transaction_row empty (payment 1011 60 11 4)) {
  gid = 900;
  kind = TransactionKind.blockchain_fee;
  group_kind = TransactionGroupKind.withdrawal;
}

abbrev waiting : Db
waiting = record vault {
  transactions = withdrawal_row TransactionStatus.pending ∷ [];
  pending_blockchain_transactions = pending_row 100 999 btc 25 88 ∷ [];
}

abbrev finished : Db
finished = record vault {
  transactions = withdrawal_row TransactionStatus.done ∷ fee_row ∷ [];
  blockchain_transactions = sent_out ∷ [];
  seen_hashes = seen_of sent_out ∷ [];
}

test_finished :
    handle_withdrawal system ids numbers sent_out sent_out
      (withdrawal_row TransactionStatus.pending)
      waiting
    ≡ (ok ([], []), finished)
unfolding handle_withdrawal value checked_sum checked_sum_from add_to checked_add
    required_confirmations to_usd_approx thresholds_of confirmations_for verify_withdrawal_tx
    get_pending has_pending_hash verify_addresses verify_managed verify_external
    Accounts.get_by_address Accounts.get with_id settle_withdrawal finish_withdrawal
    get_fees_account_dr get_system_fees_account get_system_account fees_account_id fees_currency
    create_blockchain stored_blockchain through_i32 has_hash delete_pending
    Transactions.update_status set_status has_blockchain_tx with_status blockchain_fee_tx
    Transactions.create transaction_row id_taken references_exist create_seen is_seen_as seen_of
test_finished = refl

handle_withdrawal-Outcome_example :
    (◌≡◌ {A = Handled} ([], []) ([], []))
    × Outcome system ids numbers sent_out sent_out
        (withdrawal_row TransactionStatus.pending)
        waiting
        finished
handle_withdrawal-Outcome_example =
    handle_withdrawal-Outcome system ids numbers sent_out sent_out
      (withdrawal_row TransactionStatus.pending) waiting ([], []) finished test_finished
