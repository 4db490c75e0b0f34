-- ===== src/Tests/Sending.antt =====
-- Transactions sent to a blockchain by the small bank, with clients that always answer.
use transactions.Services.Blockchain.Nonces.{take_nonce, choose_nonce}
use transactions.Repos.Blockchain.{find_nonce, get_nonce, set_nonce, put_nonce}
use transactions.Tests.Payouts.{system}
use transactions.Prelude.{refl, ℕ, ◌+◌, ◌≤◌, ◌≡◌, [], ◌∷◌, arith, length, filter, map, ltb}
use transactions.Models.{btc, eth}
use transactions.Services.Blockchain.{LeavesLedger}
use transactions.Services.Blockchain.Fees.{FeesOptions}
use transactions.Services.Blockchain.Implementation.{
  blockchain_service, blockchain_service-LeavesLedger,
}
use transactions.Services.Blockchain.Order.{RisesFrom, take_run, take_run_rises}
use transactions.Services.Blockchain.Recording.{Recorded, blockchain_service_records}
use transactions.Services.Clients.{Clients, answered}
use transactions.Services.Fetcher.Confirmations.{
  required_confirmations, required_confirmations_count, thresholds_of, to_usd_approx,
  confirmations_for,
}
use transactions.Tests.{numbers, empty, funded}

abbrev pub echo : Clients numbers
echo = record {
  Raw = ℕ;
  sign_transaction = λ tx role now. answered (tx.value + 1);
  approve = λ tx role now. answered (tx.nonce + 2);
  post_ethereum_transaction = λ raw now. answered (raw + now);
  post_bitcoin_transaction = λ raw now. answered (raw + now);
  get_bitcoin_utxos = λ address now. answered [];
  get_ethereum_nonce = λ address now. answered 4;
  rate = λ input role now. answered 2;
  generate_transaction_id = λ now. now;
  generate_exchange_id = λ now. now;
}

abbrev pub fees_options : FeesOptions ℕ
fees_options = record {
  btc_transaction_size = 250;
  eth_gas_limit = 21_000;
  stq_gas_limit = 100_000;
  fee_upside = 2;
}

take_run_rises_example :
    RisesFrom 0 (take_run 5 ((0, 3) ∷ (1, 3) ∷ []) empty)
    × (length (take_run 5 ((0, 3) ∷ (1, 3) ∷ []) empty) ≡ 2)
unfolding find_nonce
take_run_rises_example =
    take_run_rises 5 10 ((0, 3) ∷ (1, 3) ∷ []) empty (omega arith) (λ m e. cc e) (omega arith)

-- The nonces 3 and 4, though the blockchain names 3 both times.
test_nonces : take_run 5 ((0, 3) ∷ (1, 3) ∷ []) empty ≡ 3 ∷ 4 ∷ []
unfolding take_run take_nonce choose_nonce get_nonce set_nonce find_nonce put_nonce
test_nonces = refl

blockchain_service-LeavesLedger_example :
    LeavesLedger numbers (blockchain_service numbers echo fees_options system)
blockchain_service-LeavesLedger_example =
    blockchain_service-LeavesLedger numbers echo fees_options system

blockchain_service_records_example :
    Recorded 100 999 btc 7 funded
      ((blockchain_service numbers echo fees_options system).create_bitcoin_tx 100 999 7 2 funded)
    × Recorded 100 999 eth 7 funded (
        (blockchain_service numbers echo fees_options system).create_ethereum_tx 100 999 7 2 eth
          funded)
blockchain_service_records_example =
    blockchain_service_records numbers echo system fees_options 100 999 7 2 eth funded

required_confirmations_count_example :
    (required_confirmations numbers btc 10_000_000
      ≡ length (filter (λ t. ltb t (to_usd_approx numbers btc 10_000_000)) (thresholds_of btc)))
    × (required_confirmations numbers btc 10_000_000 ≤ length (thresholds_of btc))
required_confirmations_count_example = required_confirmations_count numbers btc 10_000_000

-- The cases of the tests in services/rabbit.rs whose rate is a whole number.
test_required :
    map (required_confirmations numbers btc) (100_000_000 ∷ 10_000_000 ∷ 5_000_000 ∷ 1_000_000 ∷ [])
    ≡ 3 ∷ 2 ∷ 1 ∷ 0 ∷ []
unfolding required_confirmations to_usd_approx thresholds_of confirmations_for
test_required = refl

test_required_eth :
    map (required_confirmations numbers eth) (
      21_000_000_000_000_000_000 ∷ 2_000_000_000_000_000_000 ∷ 500_000_000_000_000_000
      ∷ 50_000_000_000_000_000 ∷ [])
    ≡ 8 ∷ 3 ∷ 2 ∷ 0 ∷ []
unfolding required_confirmations to_usd_approx thresholds_of confirmations_for
test_required_eth = refl
