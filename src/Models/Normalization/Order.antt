-- ===== src/Models/Normalization/Order.antt =====
-- The canonical form of a blockchain transaction (models/blockchain_transaction.rs).
use transactions.Prelude.{
  ◌<◌, ◌≡◌, refl, ap, sym, ◌∙◌, false, ◌||◌, Option, none, some, List, [], ◌∷◌, arith, ◌==◌, nat_eq,
  if◌then◌else◌, leb, any, All, Bool-cases, inl, inr,
}
use mathlib.Core.Path.{subst}
use mathlib.Core.Option.{some-injective}
use transactions.Models.{BlockchainAddress}
use transactions.Models.Records.{Amount, BlockchainTransaction, BlockchainTransactionEntryTo}
use transactions.Amount.{checked_add}
use transactions.Models.Normalization.{
  distinct, put_entry, with_value, add_entry, add_entries, remove_address, remove_addresses,
  insert_address, sort_addresses, insert_entry, sort_entries, normalized,
}
use transactions.Models.Normalization.Entries.{
  received, is_from, is_from-sort_addresses, normalized_parts, normalized_received,
}

abbrev pub addresses : List BlockchainTransactionEntryTo → List BlockchainAddress
addresses [] = []
addresses (e ∷ es) = e.address ∷ addresses es

abbrev pub Above : BlockchainAddress → List BlockchainAddress → Type 0
Above a xs = All (λ b. a < b) xs

-- Every address is below the ones after it.
abbrev pub IsAscending : List BlockchainAddress → Type 0
IsAscending [] = Unit
IsAscending (a ∷ rest) = Above a rest × IsAscending rest

-- No address stands twice.
abbrev Distinct : List BlockchainAddress → Type 0
Distinct [] = Unit
Distinct (a ∷ rest) = (is_from a rest ≡ false) × Distinct rest

below : (a b : BlockchainAddress) (xs : List BlockchainAddress) → a < b → Above b xs → Above a xs
below a b [] h k = tt
below a b (x ∷ xs) h (k, ks) = (omega arith, below a b xs h ks)

insert_address-Above :
    (c a : BlockchainAddress) (xs : List BlockchainAddress)
    → c < a
    → Above c xs
    → Above c (insert_address a xs)
unfolding insert_address
insert_address-Above c a [] h k = (h, tt)
insert_address-Above c a (x ∷ xs) h (k, ks) = elim (Bool-cases (leb a x)) [
  | inl e ↦ rw e (h, (k, ks))
  | inr e ↦ rw e (k, insert_address-Above c a xs h ks)
]

insert_address-IsAscending :
    (a : BlockchainAddress) (xs : List BlockchainAddress)
    → is_from a xs ≡ false
    → IsAscending xs
    → IsAscending (insert_address a xs)
unfolding insert_address
insert_address-IsAscending a [] h k = (tt, tt)
insert_address-IsAscending a (x ∷ xs) h (k, ks) = elim (Bool-cases (leb a x)) [
  | inl e ↦ rw e ((ground arith, below a x xs (ground arith) k), (k, ks))
  | inr e ↦ rw e (
    insert_address-Above x a xs (ground arith) k,
    insert_address-IsAscending a xs (ground arith) ks,
  )
]

sort_addresses-IsAscending :
    (xs : List BlockchainAddress) → Distinct xs → IsAscending (sort_addresses xs)
unfolding sort_addresses
sort_addresses-IsAscending [] h = tt
sort_addresses-IsAscending (x ∷ xs) (h, hs) =
    insert_address-IsAscending x (sort_addresses xs) (is_from-sort_addresses x xs ∙ h)
      (sort_addresses-IsAscending xs hs)

distinct-Distinct : (xs : List BlockchainAddress) → Distinct (distinct xs)
unfolding distinct
distinct-Distinct [] = tt
distinct-Distinct (x ∷ xs) = elim (Bool-cases (any (λ b. b == x) (distinct xs))) [
  | inl e ↦ rw e (distinct-Distinct xs)
  | inr e ↦ rw e (e, distinct-Distinct xs)
]

addresses-insert_entry :
    (e : BlockchainTransactionEntryTo) (es : List BlockchainTransactionEntryTo)
    → addresses (insert_entry e es) ≡ insert_address e.address (addresses es)
unfolding insert_entry insert_address
addresses-insert_entry e [] = refl
addresses-insert_entry e (x ∷ es) = ground (arith, addresses-insert_entry e es)

addresses-sort_entries :
    (es : List BlockchainTransactionEntryTo)
    → addresses (sort_entries es) ≡ sort_addresses (addresses es)
unfolding sort_entries sort_addresses
addresses-sort_entries [] = refl
addresses-sort_entries (e ∷ es) =
    addresses-insert_entry e (sort_entries es)
    ∙ ap (insert_address e.address) (addresses-sort_entries es)

-- An entry adds its address, where that is not there yet.
is_from-add_entry :
    (a : BlockchainAddress) (x : BlockchainTransactionEntryTo)
    (es es' : List BlockchainTransactionEntryTo)
    → add_entry x es ≡ some es'
    → is_from a (addresses es') ≡ (x.address == a || is_from a (addresses es))
unfolding add_entry with_value put_entry checked_add
is_from-add_entry a x [] es' h = ground arith
is_from-add_entry a x (e ∷ es) es' h =
    by_rest (add_entry x es) refl (λ rest k. is_from-add_entry a x es rest k)
  where
    by_rest :
        (o : Option (List BlockchainTransactionEntryTo))
        → add_entry x es ≡ o
        → ((rest : List BlockchainTransactionEntryTo)
            → add_entry x es ≡ some rest
            → is_from a (addresses rest) ≡ (x.address == a || is_from a (addresses es)))
        → is_from a (addresses es') ≡ (x.address == a || is_from a (addresses (e ∷ es)))
    by_rest none k later = ground arith
    by_rest (some rest) k later = ground (arith, later rest k)

add_entry-Distinct :
    (x : BlockchainTransactionEntryTo) (es es' : List BlockchainTransactionEntryTo)
    → add_entry x es ≡ some es'
    → Distinct (addresses es)
    → Distinct (addresses es')
unfolding add_entry with_value put_entry
add_entry-Distinct x [] es' h d = by_value (checked_add 0 x.value) h
  where
    by_value : (v : Option Amount) → with_value x.address v [] ≡ some es' → Distinct (addresses es')
    by_value none k = ground arith
    by_value (some v) k = subst (λ o. Distinct (addresses o)) (some-injective _ _ k) (refl, tt)
add_entry-Distinct x (e ∷ es) es' h (d, ds) = elim (Bool-cases (e.address == x.address)) [
  | inl k ↦ there (checked_add e.value x.value) (ground arith)
  | inr k ↦
      absent k (add_entry x es) refl (ground arith) (λ rest q. add_entry-Distinct x es rest q ds)
]
  where
    there : (v : Option Amount) → with_value e.address v es ≡ some es' → Distinct (addresses es')
    there none q = ground arith
    there (some v) q = subst (λ o. Distinct (addresses o)) (some-injective _ _ q) (d, ds)

    absent :
        (e.address == x.address) ≡ false
        → (o : Option (List BlockchainTransactionEntryTo)) → add_entry x es ≡ o
        → put_entry e o ≡ some es'
        → ((rest : List BlockchainTransactionEntryTo)
            → add_entry x es ≡ some rest
            → Distinct (addresses rest))
        → Distinct (addresses es')
    absent k none r q later = ground arith
    absent k (some rest) r q later =
        subst (λ o. Distinct (addresses o)) (some-injective _ _ q)
          (ground (arith, is_from-add_entry e.address x es rest r), later rest r)

add_entries-Distinct :
    (xs es es' : List BlockchainTransactionEntryTo)
    → add_entries xs es ≡ some es'
    → Distinct (addresses es)
    → Distinct (addresses es')
unfolding add_entries
add_entries-Distinct [] es es' h d = subst (λ o. Distinct (addresses o)) (ground arith) d
add_entries-Distinct (x ∷ xs) es es' h d =
    by_next (add_entry x es) refl (λ next k. add_entries-Distinct xs next es' k)
  where
    by_next :
        (o : Option (List BlockchainTransactionEntryTo))
        → add_entry x es ≡ o
        → ((next : List BlockchainTransactionEntryTo)
            → add_entries xs next ≡ some es'
            → Distinct (addresses next)
            → Distinct (addresses es'))
        → Distinct (addresses es')
    by_next none k later = ground arith
    by_next (some next) k later = later next (ground arith) (add_entry-Distinct x es next k d)

is_from-remove_address :
    (a b : BlockchainAddress) (es : List BlockchainTransactionEntryTo)
    → is_from a (addresses es) ≡ false
    → is_from a (addresses (remove_address b es)) ≡ false
unfolding remove_address
is_from-remove_address a b [] h = refl
is_from-remove_address a b (e ∷ es) h = ground (arith, is_from-remove_address a b es)

remove_address-Distinct :
    (b : BlockchainAddress) (es : List BlockchainTransactionEntryTo)
    → Distinct (addresses es)
    → Distinct (addresses (remove_address b es))
unfolding remove_address
remove_address-Distinct b [] d = tt
remove_address-Distinct b (e ∷ es) (d, ds) = elim (Bool-cases (e.address == b)) [
  | inl k ↦ rw k (remove_address-Distinct b es ds)
  | inr k ↦ rw k (is_from-remove_address e.address b es d, remove_address-Distinct b es ds)
]

remove_addresses-Distinct :
    (xs : List BlockchainAddress) (es : List BlockchainTransactionEntryTo)
    → Distinct (addresses es)
    → Distinct (addresses (remove_addresses xs es))
unfolding remove_addresses
remove_addresses-Distinct [] es d = d
remove_addresses-Distinct (x ∷ xs) es d =
    remove_addresses-Distinct xs (remove_address x es) (remove_address-Distinct x es d)

-- A normalized transaction names its senders in ascending order and without repeats, the same ones
-- as before, and so its receivers; to an address that is a sender it then pays nothing, and to every
-- other the sum of all that it paid before.
pub normalized_canonical :
    (t n : BlockchainTransaction)
    → normalized t ≡ some n
    → IsAscending n.from
      × IsAscending (addresses n.to)
      × ((a : BlockchainAddress)
          → (is_from a n.from ≡ is_from a t.from)
            × (received a n.to ≡ (if is_from a t.from then 0 else received a t.to)))
normalized_canonical t n h =
    let (es, added, from, to) = normalized_parts t n h in
    (
      subst IsAscending (sym from)
          (sort_addresses-IsAscending (distinct t.from) (distinct-Distinct t.from)),
      subst IsAscending (sym (ap addresses to ∙ addresses-sort_entries _)) (
          sort_addresses-IsAscending _ (
            remove_addresses-Distinct (distinct t.from) es
              (add_entries-Distinct t.to [] es added tt))),
      λ a. normalized_received t n a h,
    )
