-- ===== src/Services/Groups/Order.antt =====
-- services/transactions/mod.rs: the order in which payments are shown.
use transactions.Models.Records.{TransactionOut}
use transactions.Services.Groups.{newest_first}
use transactions.Prelude.{
  Bool, ◌≤◌, ◌≡◌, List, [], ◌∷◌, ◌++◌, arith, inl, inr, Bool-cases, All, leb, reverse, insert_by,
  sort_by, count, count-reverse, count-sort_by,
}

-- Every payment was made no earlier than the ones after it.
abbrev pub IsNewestFirst : List TransactionOut → Type 0
IsNewestFirst [] = Unit
IsNewestFirst (t ∷ ts) =
    All (λ (u : TransactionOut). u.created_at ≤ t.created_at) ts × IsNewestFirst ts

abbrev IsOldestFirst : List TransactionOut → Type 0
IsOldestFirst [] = Unit
IsOldestFirst (t ∷ ts) =
    All (λ (u : TransactionOut). t.created_at ≤ u.created_at) ts × IsOldestFirst ts

abbrev older : TransactionOut → TransactionOut → Bool
older a b = leb a.created_at b.created_at

All-weaken :
    {P Q : TransactionOut → Type 0} (ts : List TransactionOut)
    → ((t : TransactionOut) → P t → Q t)
    → All P ts
    → All Q ts
All-weaken [] f h = tt
All-weaken (t ∷ ts) f (p, ps) = (f t p, All-weaken ts f ps)

All-append_one :
    (P : TransactionOut → Type 0) (ts : List TransactionOut) (t : TransactionOut)
    → All P ts
    → P t
    → All P (ts ++ t ∷ [])
All-append_one P [] t h p = (p, tt)
All-append_one P (u ∷ ts) t (q, qs) p = (q, All-append_one P ts t qs p)

All-insert :
    (P : TransactionOut → Type 0) (t : TransactionOut) (ts : List TransactionOut)
    → P t
    → All P ts
    → All P (insert_by older t ts)
All-insert P t [] p h = (p, tt)
All-insert P t (u ∷ ts) p (q, qs) = elim (Bool-cases (older t u)) [
  | inl e ↦ rw e (p, (q, qs))
  | inr e ↦ rw e (q, All-insert P t ts p qs)
]

All-reverse :
    (P : TransactionOut → Type 0) (ts : List TransactionOut) → All P ts → All P (reverse ts)
All-reverse P [] h = tt
All-reverse P (t ∷ ts) (p, ps) = All-append_one P (reverse ts) t (All-reverse P ts ps) p

insert_by-IsOldestFirst :
    (t : TransactionOut) (ts : List TransactionOut)
    → IsOldestFirst ts
    → IsOldestFirst (insert_by older t ts)
insert_by-IsOldestFirst t [] h = (tt, tt)
insert_by-IsOldestFirst t (u ∷ ts) (h, hs) = elim (Bool-cases (older t u)) [
  | inl e ↦ rw e ((ground arith, All-weaken ts (λ v k. ground arith) h), (h, hs))
  | inr e ↦ rw e (
    All-insert (λ (v : TransactionOut). u.created_at ≤ v.created_at) t ts (ground arith) h,
    insert_by-IsOldestFirst t ts hs,
  )
]

sort_by-IsOldestFirst : (ts : List TransactionOut) → IsOldestFirst (sort_by older ts)
sort_by-IsOldestFirst [] = tt
sort_by-IsOldestFirst (t ∷ ts) =
    insert_by-IsOldestFirst t (sort_by older ts) (sort_by-IsOldestFirst ts)

append_one-IsNewestFirst :
    (ts : List TransactionOut) (t : TransactionOut)
    → IsNewestFirst ts
    → All (λ (u : TransactionOut). t.created_at ≤ u.created_at) ts
    → IsNewestFirst (ts ++ t ∷ [])
append_one-IsNewestFirst [] t h k = (tt, tt)
append_one-IsNewestFirst (u ∷ ts) t (h, hs) (k, ks) = (
  All-append_one (λ (v : TransactionOut). v.created_at ≤ u.created_at) ts t h k,
  append_one-IsNewestFirst ts t hs ks,
)

reverse-IsNewestFirst : (ts : List TransactionOut) → IsOldestFirst ts → IsNewestFirst (reverse ts)
reverse-IsNewestFirst [] h = tt
reverse-IsNewestFirst (t ∷ ts) (h, hs) =
    append_one-IsNewestFirst (reverse ts) t (reverse-IsNewestFirst ts hs)
      (All-reverse (λ (v : TransactionOut). t.created_at ≤ v.created_at) ts h)

pub newest_first-IsNewestFirst : (ts : List TransactionOut) → IsNewestFirst (newest_first ts)
unfolding newest_first
newest_first-IsNewestFirst ts = reverse-IsNewestFirst (sort_by older ts) (sort_by-IsOldestFirst ts)

pub count-newest_first :
    (p : TransactionOut → Bool) (ts : List TransactionOut) → count p (newest_first ts) ≡ count p ts
unfolding newest_first
count-newest_first p ts = cc (count-reverse p (sort_by older ts), count-sort_by older p ts)
