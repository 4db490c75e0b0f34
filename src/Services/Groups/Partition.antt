-- ===== src/Services/Groups/Partition.antt =====
-- services/transactions/mod.rs: `group_transactions` splits the rows by their `gid`.
use transactions.Models.Records.{Transaction}
use transactions.Services.Groups.{add_to_group, groups_from}
use transactions.Models.{TransactionId}
use mathlib.Core.List.{append-nil, append_assoc}
use transactions.Prelude.{
  inl, inr, sym, ap, ◌∙◌, filter-append, Bool-cases, Bool, false, ◌≡◌, refl, List, [], ◌∷◌, ◌++◌,
  arith, filter, if◌then◌else◌, ◌==◌, nat_eq, ◌||◌, ◌||◌, ◌≢◌, ◌≢◌,
}

-- `res.get(gid)`, with no rows for an unknown key.
abbrev pub group_of : TransactionId → List (TransactionId × List Transaction) → List Transaction
group_of gid [] = []
group_of gid ((k, txs) ∷ rest) = let others = group_of gid rest in if k == gid then txs else others

abbrev pub has_key : TransactionId → List (TransactionId × List Transaction) → Bool
has_key gid [] = false
has_key gid ((k, txs) ∷ rest) = k == gid || has_key gid rest

-- No key stands twice, and no group is empty.
abbrev pub HasDistinctKeys : List (TransactionId × List Transaction) → Type 0
HasDistinctKeys [] = Unit
HasDistinctKeys ((k, txs) ∷ rest) = (has_key k rest ≡ false) × (txs ≢ []) × HasDistinctKeys rest

abbrev pub rows_with_gid : TransactionId → List Transaction → List Transaction
rows_with_gid gid = filter (λ (t : Transaction). t.gid == gid)

group_of-add_to_group :
    (gid : TransactionId) (t : Transaction) (res : List (TransactionId × List Transaction))
    → group_of gid (add_to_group t res) ≡ group_of gid res ++ rows_with_gid gid (t ∷ [])
unfolding add_to_group
group_of-add_to_group gid t [] = ground arith
group_of-add_to_group gid t ((k, txs) ∷ rest) =
    ground (arith, group_of-add_to_group gid t rest, append-nil txs, append-nil (group_of gid rest))

has_key-add_to_group :
    (gid : TransactionId) (t : Transaction) (res : List (TransactionId × List Transaction))
    → has_key gid (add_to_group t res) ≡ (t.gid == gid || has_key gid res)
unfolding add_to_group
has_key-add_to_group gid t [] = ground arith
has_key-add_to_group gid t ((k, txs) ∷ rest) = ground (arith, has_key-add_to_group gid t rest)

append_one-ne-nil : (ts : List Transaction) (t : Transaction) → ts ++ t ∷ [] ≢ []
append_one-ne-nil [] t h = cc h
append_one-ne-nil (u ∷ ts) t h = cc h

add_to_group-HasDistinctKeys :
    (t : Transaction) (res : List (TransactionId × List Transaction))
    → HasDistinctKeys res
    → HasDistinctKeys (add_to_group t res)
unfolding add_to_group
add_to_group-HasDistinctKeys t [] h = (refl, (λ e. cc e), tt)
add_to_group-HasDistinctKeys t ((k, txs) ∷ rest) (h, n, hs) = elim (Bool-cases (k == t.gid)) [
  | inl e ↦ rw e (h, append_one-ne-nil txs t, hs)
  | inr e ↦
      rw e
        (ground (arith, has_key-add_to_group k t rest), n, add_to_group-HasDistinctKeys t rest hs)
]

group_of-groups_from :
    (gid : TransactionId) (res : List (TransactionId × List Transaction)) (ts : List Transaction)
    → group_of gid (groups_from res ts) ≡ group_of gid res ++ rows_with_gid gid ts
unfolding groups_from
group_of-groups_from gid res [] = sym (append-nil (group_of gid res))
group_of-groups_from gid res (t ∷ ts) =
    group_of-groups_from gid (add_to_group t res) ts
    ∙ ap (λ (r : List Transaction). r ++ rows_with_gid gid ts) (group_of-add_to_group gid t res)
    ∙ append_assoc (group_of gid res) (rows_with_gid gid (t ∷ [])) (rows_with_gid gid ts)
    ∙ ap (λ (r : List Transaction). group_of gid res ++ r)
        (sym (filter-append (λ (u : Transaction). u.gid == gid) (t ∷ []) ts))

groups_from-HasDistinctKeys :
    (res : List (TransactionId × List Transaction)) (ts : List Transaction)
    → HasDistinctKeys res
    → HasDistinctKeys (groups_from res ts)
unfolding groups_from
groups_from-HasDistinctKeys res [] h = h
groups_from-HasDistinctKeys res (t ∷ ts) h =
    groups_from-HasDistinctKeys (add_to_group t res) ts (add_to_group-HasDistinctKeys t res h)

-- The map that is built from a list of rows has one group for each `gid` among them, not empty and in
-- the order of the list: the rows of that `gid`, all of them and no other.
pub groups_from_partition :
    (ts : List Transaction)
    → HasDistinctKeys (groups_from [] ts)
      × ((gid : TransactionId) → group_of gid (groups_from [] ts) ≡ rows_with_gid gid ts)
groups_from_partition ts =
    (groups_from-HasDistinctKeys [] ts tt, λ gid. group_of-groups_from gid [] ts)

-- The entries of a map, in whatever order, are those of the map.
abbrev pub IsOrderOfEntries :
    (List (TransactionId × List Transaction) → List (TransactionId × List Transaction)) → Type 0
IsOrderOfEntries hash_order =
    (res : List (TransactionId × List Transaction))
    → HasDistinctKeys res
    → HasDistinctKeys (hash_order res)
      × ((gid : TransactionId) → group_of gid (hash_order res) ≡ group_of gid res)
