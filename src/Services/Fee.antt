-- ===== src/Services/Fee.antt =====
-- services/fee.rs: the fees that a client may choose from (models/fees.rs).
pub mod Quoted
use transactions.Repos.{Db}
use transactions.Models.Sending.{RateInput, Role}
use transactions.Services.Clients.{
  Clients, Reply, ClientErrorKind, ask, from_exchange_kind, from_client_kind,
}
use transactions.Models.{btc, eth, stq, Currency, BlockchainAddress, eth, currency_eq}
use transactions.Models.Records.{Amount, Time, Account}
use transactions.Float.{Floats}
use transactions.Prelude.{
  ℕ, Bool, true, false, List, [], ◌∷◌, map, ◌==◌, nat_eq, all, if◌then◌else◌, Among,
}
use transactions.Exec.{
  ◌>>=◌, ◌>>◌, client, Exec, as_internal, pure, raise, invalid_currency, invalid_input,
}
use transactions.Repos.Accounts

pub record Fee : Type 0 where
  pub value : Amount
  pub estimated_time : ℕ

pub record Fees : Type 0 where
  pub currency : Currency
  pub fees : List Fee

pub record GetFees : Type 0 where
  pub currency : Currency
  pub account_address : BlockchainAddress

-- `Fee::default()`
abbrev pub no_fee : Fee
no_fee = record { value = 0; estimated_time = 0 }

-- `fees.iter().map(|f| f.value).nth(0).unwrap_or_default()`
unfoldable pub first_value : List Fee → Amount
first_value [] = 0
first_value (fee ∷ fees) = fee.value

abbrev pub map_values : (Amount → Amount) → List Fee → List Fee
map_values change [] = []
map_values change (fee ∷ fees) = record fee { value = change fee.value } ∷ map_values change fees

-- The fees client (client/fees), a parameter.
pub record FeesClient : Type 0 where
  pub bitcoin_fees : Time → Reply ClientErrorKind (List Fee)
  pub eth_fees : Time → Reply ClientErrorKind (List Fee)
  pub stq_fees : Time → Reply ClientErrorKind (List Fee)

-- Whether the address is one of ours, all accounts of which have to be in the currency asked for.
unfoldable pub has_accounts : Currency → List Account → Exec Db Bool
has_accounts currency [] = pure false
has_accounts currency (acc ∷ accs) =
    if all (λ (a : Account). a.currency == currency) (acc ∷ accs)
    then pure true
    else raise invalid_currency invalid_input

module _ (f : Floats) (clients : Clients f) (fees_client : FeesClient) (fee_upside : f.F64) where
  -- `Amount::new((f.value.raw() as f64 * fee_upside) as u128)`
  unfoldable pub with_upside : List Fee → List Fee
  with_upside fees = map_values (λ v. f.to_u128 (f.times (f.of_u128 v) fee_upside)) fees

  unfoldable pub at_rate : f.F64 → List Fee → List Fee
  at_rate rate fees = map_values (λ v. f.to_u128 (f.over (f.of_u128 v) rate)) fees

  unfoldable pub rate_input : Time → List Fee → Currency → Currency → RateInput
  rate_input now fees from to = record {
    id = clients.generate_exchange_id now;
    from = from;
    to = to;
    amount = first_value fees;
    amount_currency = to;
  }

  unfoldable pub convert_fees : List Fee → Currency → Currency → Exec Db (List Fee)
  convert_fees fees from to db =
      (do
        rate ← ask from_exchange_kind (clients.rate (rate_input db.now fees from to) Role.system)
        pure (at_rate rate fees))
        db

  -- What the blockchain of a currency asks for; STQ is paid for in ETH.
  unfoldable pub blockchain_fees : Currency → Exec Db (List Fee)
  blockchain_fees btc = as_internal (ask from_client_kind fees_client.bitcoin_fees)
  blockchain_fees eth = as_internal (ask from_client_kind fees_client.eth_fees)
  blockchain_fees stq = do
    fees ← as_internal (ask from_client_kind fees_client.stq_fees)
    convert_fees fees stq eth

  unfoldable pub fees_for : Currency → Bool → Exec Db Fees
  fees_for currency true = pure (record { currency = currency; fees = no_fee ∷ [] })
  fees_for currency false = do
    fees ← blockchain_fees currency
    pure (record { currency = currency; fees = with_upside fees })

  unfoldable pub get_fees : GetFees → Exec Db Fees
  get_fees input = do
    accs ← Accounts.filter_by_address input.account_address
    acc_exists ← has_accounts input.currency accs
    fees_for input.currency acc_exists
