-- ===== src/Tests/Keys.antt =====
-- Identifiers, blockchain transactions and owners at concrete values.
use Prim.Native.String.{String}
use transactions.Prelude.{ℕ, ◌-◌, ◌≡◌, ◌≢◌, refl, some, none, [], ◌∷◌, arith, if◌then◌else◌}
use transactions.Models.{btc, next, prev, last_byte}
use transactions.Models.Ids.Wrapping.{nexts, prev-next, nexts_distinct}
use transactions.Models.Records.{BlockchainTransaction, UpdateAccount, CreateAccount}
use transactions.Models.Normalization.{
  distinct, put_entry, with_value, add_entry, add_entries, remove_address, remove_addresses,
  unify_from_to, insert_address, sort_addresses, insert_entry, sort_entries, normalized,
}
use transactions.Models.Normalization.Entries.{received, is_from}
use transactions.Models.Normalization.Order.{IsAscending, addresses, normalized_canonical}
use transactions.Amount.{checked_add}
use transactions.Exec.{Result, ok}
use transactions.Services.Accounts.Opening.{OpenedOrUnchanged, create_account-OpenedOrUnchanged}
use transactions.Services.Accounts.{create_account, update_account, delete_account}
use transactions.Services.Accounts.Ownership.{
  OwnedOrUnchanged, update_account-OwnedOrUnchanged, IsUpdated, IsDeleted,
}
use transactions.Tests.{funded}

prev-next_example : (prev (next 511) ≡ 511) × (next (prev 511) ≡ 511)
prev-next_example = prev-next 511

nexts_distinct_example :
    (nexts 3 510 ≢ nexts 200 510)
    × (nexts 200 510 - last_byte (nexts 200 510) ≡ 510 - last_byte 510)
nexts_distinct_example = nexts_distinct 510 3 200 (omega arith) (omega arith)

abbrev seen : BlockchainTransaction
seen = record {
  hash = 77;
  from = 9 ∷ 4 ∷ 9 ∷ [];
  to =
      record { address = 8; value = 5 }
      ∷ record { address = 4; value = 1 }
      ∷ record { address = 3; value = 7 }
      ∷ record { address = 8; value = 6 }
      ∷ [];
  block_number = 1;
  currency = btc;
  fee = 2;
  confirmations = 3;
  erc20_operation_kind = none;
}

abbrev canonical : BlockchainTransaction
canonical = record seen {
  from = 4 ∷ 9 ∷ [];
  to = record { address = 3; value = 7 } ∷ record { address = 8; value = 11 } ∷ [];
}

test_normalized : normalized seen ≡ some canonical
unfolding normalized unify_from_to distinct put_entry with_value add_entry add_entries
    remove_address remove_addresses insert_address sort_addresses insert_entry sort_entries
    checked_add
test_normalized = refl

normalized_canonical_example :
    IsAscending (4 ∷ 9 ∷ [])
    × IsAscending (addresses canonical.to)
    × ((a : ℕ)
        → (is_from a canonical.from ≡ is_from a seen.from)
          × (received a canonical.to ≡ (if is_from a seen.from then 0 else received a seen.to)))
normalized_canonical_example = normalized_canonical seen canonical test_normalized

abbrev renamed : UpdateAccount
renamed = record { name = some "a"; erc20_approved = none }

abbrev length : String → ℕ
length s = 5

update_account-OwnedOrUnchanged_example :
    OwnedOrUnchanged
      (IsUpdated 10 renamed funded)
      1
      funded
      (update_account length 1 10 renamed funded)
    × OwnedOrUnchanged (IsDeleted 10 funded) 1 funded (delete_account 1 10 funded)
update_account-OwnedOrUnchanged_example = update_account-OwnedOrUnchanged length 1 10 renamed funded

abbrev savings : CreateAccount
savings = record { id = 70; user_id = 7; currency = btc; name = "b"; daily_limit_type = none }

abbrev new_address : CreateAccount → Result ℕ
new_address input = ok 700

create_account-OpenedOrUnchanged_example :
    OpenedOrUnchanged length new_address 1 71 savings funded
      (create_account length new_address 1 71 savings funded)
create_account-OpenedOrUnchanged_example =
    create_account-OpenedOrUnchanged length new_address 1 71 savings funded
