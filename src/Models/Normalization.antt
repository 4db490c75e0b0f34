-- ===== src/Models/Normalization.antt =====
-- Blockchain transactions with every address named once: `unify_from_to`, `normalized` and `value`
-- of models/blockchain_transaction.rs. A `HashSet` and a `HashMap` are lists without repeats.
pub mod Entries
pub mod Order
use transactions.Prelude.{
  ℕ, ◌≤◌, Bool, true, false, ◌||◌, not, Option, none, some, List, [], ◌∷◌, ◌==◌, nat_eq,
  if◌then◌else◌, leb, any, filter, and_then,
}
use transactions.Models.{BlockchainAddress}
use transactions.Models.Records.{Amount, BlockchainTransaction, BlockchainTransactionEntryTo}
use transactions.Amount.{checked_add, checked_sum}

-- `from.clone().into_iter().collect::<HashSet<_>>()`
unfoldable pub distinct : List BlockchainAddress → List BlockchainAddress
distinct [] = []
distinct (a ∷ rest) = let tail = distinct rest in if any (λ b. b == a) tail then tail else a ∷ tail

unfoldable pub put_entry :
    BlockchainTransactionEntryTo
    → Option (List BlockchainTransactionEntryTo)
    → Option (List BlockchainTransactionEntryTo)
put_entry e none = none
put_entry e (some es) = some (e ∷ es)

unfoldable pub with_value :
    BlockchainAddress
    → Option Amount
    → List BlockchainTransactionEntryTo
    → Option (List BlockchainTransactionEntryTo)
with_value a none es = none
with_value a (some v) es = some (record { address = a; value = v } ∷ es)

-- `to.entry(address).or_insert(0)`, to which the value is added.
unfoldable pub add_entry :
    BlockchainTransactionEntryTo
    → List BlockchainTransactionEntryTo
    → Option (List BlockchainTransactionEntryTo)
add_entry x [] = with_value x.address (checked_add 0 x.value) []
add_entry x (e ∷ es) =
    let rest = add_entry x es in
    if e.address == x.address
    then with_value e.address (checked_add e.value x.value) es
    else put_entry e rest

-- The loop over `self.to`.
unfoldable pub add_entries :
    List BlockchainTransactionEntryTo
    → List BlockchainTransactionEntryTo
    → Option (List BlockchainTransactionEntryTo)
add_entries [] es = some es
add_entries (x ∷ xs) es = and_then (add_entry x es) (add_entries xs)

unfoldable pub remove_address :
    BlockchainAddress → List BlockchainTransactionEntryTo → List BlockchainTransactionEntryTo
remove_address a es = filter (λ e. not (e.address == a)) es

-- The loop over `from`.
unfoldable pub remove_addresses :
    List BlockchainAddress → List BlockchainTransactionEntryTo → List BlockchainTransactionEntryTo
remove_addresses [] es = es
remove_addresses (a ∷ rest) es = remove_addresses rest (remove_address a es)

unfoldable pub unify_from_to :
    BlockchainTransaction → Option (List BlockchainAddress × List BlockchainTransactionEntryTo)
unify_from_to t =
    and_then (add_entries t.to [])
      (λ to. some (distinct t.from, remove_addresses (distinct t.from) to))

-- `sort`
unfoldable pub insert_address : BlockchainAddress → List BlockchainAddress → List BlockchainAddress
insert_address a [] = a ∷ []
insert_address a (b ∷ rest) =
    let later = insert_address a rest in if leb a b then a ∷ b ∷ rest else b ∷ later

unfoldable pub sort_addresses : List BlockchainAddress → List BlockchainAddress
sort_addresses [] = []
sort_addresses (a ∷ rest) = insert_address a (sort_addresses rest)

-- `sort_by_key(|entry| entry.address)`
unfoldable pub insert_entry :
    BlockchainTransactionEntryTo
    → List BlockchainTransactionEntryTo
    → List BlockchainTransactionEntryTo
insert_entry e [] = e ∷ []
insert_entry e (x ∷ rest) =
    let later = insert_entry e rest in if leb e.address x.address then e ∷ x ∷ rest else x ∷ later

unfoldable pub sort_entries : List BlockchainTransactionEntryTo → List BlockchainTransactionEntryTo
sort_entries [] = []
sort_entries (e ∷ rest) = insert_entry e (sort_entries rest)

unfoldable pub normalized : BlockchainTransaction → Option BlockchainTransaction
normalized t =
    and_then (unify_from_to t)
      (λ u. some (record t { from = sort_addresses u.0; to = sort_entries u.1 }))

abbrev pub entry_value : BlockchainTransactionEntryTo → Amount
entry_value e = e.value

-- `value`: the sum of the entries.
unfoldable pub value : BlockchainTransaction → Option Amount
value t = checked_sum entry_value t.to
