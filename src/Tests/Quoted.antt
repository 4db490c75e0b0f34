-- ===== src/Tests/Quoted.antt =====
-- Fees that are quoted, and a user that is registered.
use transactions.Exec.{ok}
use transactions.Models.{stq, btc}
use transactions.Services.Clients.{answered, from_client_kind}
use transactions.Services.Users.{create_user}
use transactions.Repos.Accounts.{filter_by_address}
use transactions.Models.Records.{NewUser}
use transactions.Services.Users.Opening.{RegisteredOrUnchanged, create_user-RegisteredOrUnchanged}
use transactions.Services.Fee.{
  get_fees, FeesClient, GetFees, has_accounts, fees_for, blockchain_fees, with_upside,
}
use transactions.Services.Fee.Quoted.{Quoted, get_fees-Quoted}
use Prim.Native.String.{String}
use transactions.Prelude.{ℕ, ◌≡◌, refl, [], ◌∷◌}
use transactions.Tests.{numbers, funded}
use transactions.Tests.Sending.{echo}

abbrev quoting : FeesClient
quoting = record {
  bitcoin_fees = λ now. answered (record { value = 40; estimated_time = 600 } ∷ []);
  eth_fees = λ now. answered (record { value = 9; estimated_time = 15 } ∷ []);
  stq_fees = λ now. answered (record { value = 5; estimated_time = 15 } ∷ []);
}

abbrev asked : GetFees
asked = record { currency = stq; account_address = 999 }

get_fees-Quoted_example :
    Quoted numbers echo quoting 2 asked funded (get_fees numbers echo quoting 2 asked funded)
get_fees-Quoted_example = get_fees-Quoted numbers echo quoting 2 asked funded

test_quoted :
    get_fees numbers echo quoting 2 (record { currency = btc; account_address = 999 }) funded ≡ (
      ok (record { currency = btc; fees = record { value = 80; estimated_time = 600 } ∷ [] }),
      funded,
    )
unfolding get_fees filter_by_address has_accounts fees_for blockchain_fees with_upside
    from_client_kind
test_quoted = refl

abbrev name_length : String → ℕ
name_length s = 5

abbrev ten : ℕ → ℕ
ten token = 10

abbrev newcomer : NewUser
newcomer = record { id = 8; name = "b"; authentication_token = 2 }

create_user-RegisteredOrUnchanged_example :
    RegisteredOrUnchanged name_length ten newcomer funded
      (create_user name_length ten newcomer funded)
create_user-RegisteredOrUnchanged_example =
    create_user-RegisteredOrUnchanged name_length ten newcomer funded
