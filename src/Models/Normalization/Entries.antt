-- ===== src/Models/Normalization/Entries.antt =====
-- What `normalized` (models/blockchain_transaction.rs) keeps and what it makes canonical.
use transactions.Prelude.{
  ℕ, ◌+◌, ◌≡◌, refl, ◌∙◌, Bool, ◌||◌, Option, none, some, List, [], ◌∷◌, arith, ◌==◌, nat_eq,
  if◌then◌else◌, any, filter, sum_by,
}
use transactions.Models.{BlockchainAddress}
use transactions.Models.Records.{BlockchainTransaction, BlockchainTransactionEntryTo}
use transactions.Amount.{checked_add}
use transactions.Models.Normalization.{
  distinct, put_entry, with_value, add_entry, add_entries, remove_address, remove_addresses,
  unify_from_to, insert_address, sort_addresses, insert_entry, sort_entries, normalized,
  entry_value,
}

-- What an address receives.
abbrev pub received : BlockchainAddress → List BlockchainTransactionEntryTo → ℕ
received a es = sum_by entry_value (filter (λ e. e.address == a) es)

abbrev pub is_from : BlockchainAddress → List BlockchainAddress → Bool
is_from a xs = any (λ b. b == a) xs

-- Lists of addresses: membership through `distinct` and the sort.
pub is_from-distinct :
    (a : BlockchainAddress) (xs : List BlockchainAddress) → is_from a (distinct xs) ≡ is_from a xs
unfolding distinct
is_from-distinct a [] = refl
is_from-distinct a (x ∷ xs) = ground (arith, is_from-distinct a xs, is_from-distinct x xs)

pub is_from-insert_address :
    (a b : BlockchainAddress) (xs : List BlockchainAddress)
    → is_from a (insert_address b xs) ≡ (b == a || is_from a xs)
unfolding insert_address
is_from-insert_address a b [] = refl
is_from-insert_address a b (x ∷ xs) = ground (arith, is_from-insert_address a b xs)

received-insert_entry :
    (a : BlockchainAddress) (e : BlockchainTransactionEntryTo)
    (es : List BlockchainTransactionEntryTo)
    → received a (insert_entry e es) ≡ received a (e ∷ es)
unfolding insert_entry
received-insert_entry a e [] = refl
received-insert_entry a e (x ∷ es) = ground (arith, received-insert_entry a e es)

received-remove_address :
    (a b : BlockchainAddress) (es : List BlockchainTransactionEntryTo)
    → received a (remove_address b es) ≡ (if b == a then 0 else received a es)
unfolding remove_address
received-remove_address a b [] = ground arith
received-remove_address a b (e ∷ es) = ground (arith, received-remove_address a b es)

received-add_entry :
    (a : BlockchainAddress) (x : BlockchainTransactionEntryTo)
    (es es' : List BlockchainTransactionEntryTo)
    → add_entry x es ≡ some es'
    → received a es' ≡ received a (x ∷ es)
unfolding add_entry with_value put_entry checked_add
received-add_entry a x [] es' h = ground arith
received-add_entry a x (e ∷ es) es' h =
    by_rest (add_entry x es) refl (λ rest k. received-add_entry a x es rest k)
  where
    by_rest :
        (o : Option (List BlockchainTransactionEntryTo))
        → add_entry x es ≡ o
        → ((rest : List BlockchainTransactionEntryTo)
            → add_entry x es ≡ some rest
            → received a rest ≡ received a (x ∷ es))
        → received a es' ≡ received a (x ∷ e ∷ es)
    by_rest none k later = ground arith
    by_rest (some rest) k later = ground (arith, later rest k)

received-add_entries :
    (a : BlockchainAddress) (xs es es' : List BlockchainTransactionEntryTo)
    → add_entries xs es ≡ some es'
    → received a es' ≡ received a xs + received a es
unfolding add_entries
received-add_entries a [] es es' h = ground arith
received-add_entries a (x ∷ xs) es es' h =
    by_next (add_entry x es) refl (λ next k. received-add_entries a xs next es' k)
  where
    by_next :
        (o : Option (List BlockchainTransactionEntryTo))
        → add_entry x es ≡ o
        → ((next : List BlockchainTransactionEntryTo)
            → add_entries xs next ≡ some es'
            → received a es' ≡ received a xs + received a next)
        → received a es' ≡ received a (x ∷ xs) + received a es
    by_next none k later = ground arith
    by_next (some next) k later = ground (arith, later next, received-add_entry a x es next k)

received-remove_addresses :
    (a : BlockchainAddress) (xs : List BlockchainAddress) (es : List BlockchainTransactionEntryTo)
    → received a (remove_addresses xs es) ≡ (if is_from a xs then 0 else received a es)
unfolding remove_addresses
received-remove_addresses a [] es = refl
received-remove_addresses a (x ∷ xs) es =
    ground
      (arith, received-remove_addresses a xs (remove_address x es), received-remove_address a x es)

received-sort_entries :
    (a : BlockchainAddress) (es : List BlockchainTransactionEntryTo)
    → received a (sort_entries es) ≡ received a es
unfolding sort_entries
received-sort_entries a [] = refl
received-sort_entries a (e ∷ es) =
    ground (arith, received-insert_entry a e (sort_entries es), received-sort_entries a es)

pub is_from-sort_addresses :
    (a : BlockchainAddress) (xs : List BlockchainAddress)
    → is_from a (sort_addresses xs) ≡ is_from a xs
unfolding sort_addresses
is_from-sort_addresses a [] = refl
is_from-sort_addresses a (x ∷ xs) =
    ground (arith, is_from-insert_address a x (sort_addresses xs), is_from-sort_addresses a xs)

-- What `normalized` returns, in terms of the entries that it has added up.
pub normalized_parts :
    (t n : BlockchainTransaction)
    → normalized t ≡ some n
    → (es : List BlockchainTransactionEntryTo) × (add_entries t.to [] ≡ some es)
      × (n.from ≡ sort_addresses (distinct t.from))
      × (n.to ≡ sort_entries (remove_addresses (distinct t.from) es))
unfolding normalized unify_from_to
normalized_parts t n h = by_entries (add_entries t.to []) refl
  where
    by_entries :
        (o : Option (List BlockchainTransactionEntryTo))
        → add_entries t.to [] ≡ o
        → (es : List BlockchainTransactionEntryTo) × (add_entries t.to [] ≡ some es)
          × (n.from ≡ sort_addresses (distinct t.from))
          × (n.to ≡ sort_entries (remove_addresses (distinct t.from) es))
    by_entries none k = ground arith
    by_entries (some es) k = (es, k, ground arith, ground arith)

pub normalized_received :
    (t n : BlockchainTransaction) (a : BlockchainAddress)
    → normalized t ≡ some n
    → (is_from a n.from ≡ is_from a t.from)
      × (received a n.to ≡ (if is_from a t.from then 0 else received a t.to))
normalized_received t n a h =
    let (es, added, from, to) = normalized_parts t n h in
    (
      rw from (is_from-sort_addresses a (distinct t.from) ∙ is_from-distinct a t.from),
      rw to (
          ground (
            arith,
            received-sort_entries a (remove_addresses (distinct t.from) es),
            received-remove_addresses a (distinct t.from) es,
            received-add_entries a t.to [] es added,
            is_from-distinct a t.from,
          )),
    )
