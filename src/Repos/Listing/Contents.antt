-- ===== src/Repos/Listing/Contents.antt =====
-- repos/transactions.rs: what a page of groups of rows holds.
use transactions.Repos.{Db}
use transactions.Models.Records.{Transaction}
use transactions.Models.{TransactionId}
use transactions.Repos.Listing.{
  list_groups, group_gids, add_gid, GidQuery, page, later_query, later_row,
}
use transactions.Prelude.{
  suc, ℕ, zero, ◌≤◌, ◌<◌, ◌≡◌, refl, sym, ap, ◌∙◌, Bool, true, ◌&&◌, ◌||◌, List, [], ◌∷◌, arith,
  All, any, filter, length, skip, sort_by, count, ◌==◌, nat_eq, take-all, any-filter, All-take,
  All-skip, All-sort_by, length-take, count-sort_by, count-filter, any-sort_by,
}
use transactions.Exec.{ok, pure-eq-ok}

-- A group of the table has a row that is chosen.
abbrev pub has_chosen : (Transaction → Bool) → List Transaction → TransactionId → Bool
has_chosen chosen rows gid = any (λ (t : Transaction). chosen t && t.gid == gid) rows

-- The rows are those of a page of groups, whole: each group of the page has a row that is chosen, there
-- are no more groups than the limit, a row of the table is among the rows as often as it stands in the
-- table if its group is on the page, and not otherwise; and a first page that is not full has every
-- group with a row that is chosen.
pub record IsPageOf (chosen : Transaction → Bool) (offset limit : ℕ) (db : Db)
    (rows : List Transaction) : Type 0 where
  pub groups : List GidQuery
  pub chosen_only : All (λ (q : GidQuery). has_chosen chosen db.transactions q.gid ≡ true) groups
  pub at_most : length groups ≤ limit
  pub whole_groups :
      (p : Transaction → Bool)
      → count p rows
        ≡ count
            (λ (t : Transaction). any (λ (q : GidQuery). q.gid == t.gid) groups && p t)
            db.transactions
  pub complete :
      offset ≡ 0
      → length groups < limit
      → (gid : TransactionId)
      → any (λ (q : GidQuery). q.gid == gid) groups ≡ has_chosen chosen db.transactions gid

any-add_gid :
    (gid : TransactionId) (t : Transaction) (qs : List GidQuery)
    → any (λ (q : GidQuery). q.gid == gid) (add_gid t qs)
      ≡ (t.gid == gid || any (λ (q : GidQuery). q.gid == gid) qs)
unfolding add_gid
any-add_gid gid t [] = ground arith
any-add_gid gid t (q ∷ qs) = ground (arith, any-add_gid gid t qs)

any-group_gids :
    (gid : TransactionId) (ts : List Transaction)
    → any (λ (q : GidQuery). q.gid == gid) (group_gids ts)
      ≡ any (λ (t : Transaction). t.gid == gid) ts
unfolding group_gids
any-group_gids gid [] = refl
any-group_gids gid (t ∷ ts) =
    ground (arith, any-add_gid gid t (group_gids ts), any-group_gids gid ts)

-- A property of every `gid` that is among the groups holds of each of them.
groups_each :
    (P : TransactionId → Type 0) (qs : List GidQuery)
    → ((gid : TransactionId) → any (λ (q : GidQuery). q.gid == gid) qs ≡ true → P gid)
    → All (λ (q : GidQuery). P q.gid) qs
groups_each P [] h = tt
groups_each P (q ∷ qs) h =
    (h q.gid (ground arith), groups_each P qs (λ gid k. h gid (ground arith)))

pub list_groups-IsPageOf :
    (chosen : Transaction → Bool) (offset limit : ℕ) (db : Db) (rows : List Transaction) (db' : Db)
    → list_groups chosen offset limit db ≡ (ok rows, db')
    → (db' ≡ db) × IsPageOf chosen offset limit db rows
unfolding list_groups
list_groups-IsPageOf chosen offset limit db rows db' h =
    let (is_rows, same) = pure-eq-ok h in
    let all_groups = group_gids (filter chosen db.transactions) in
    let sorted = sort_by later_query all_groups in
    let among = λ (gid : TransactionId).
      any-group_gids gid (filter chosen db.transactions)
      ∙ any-filter chosen (λ (t : Transaction). t.gid == gid) db.transactions in
    (
      sym same,
      record {
        groups = page offset limit sorted;
        chosen_only = All-take _ limit (skip offset sorted) (
            All-skip _ offset sorted (
              All-sort_by _ later_query all_groups (
                groups_each (λ gid. has_chosen chosen db.transactions gid ≡ true) all_groups
                  (λ gid k. sym (among gid) ∙ k))));
        at_most = length-take limit (skip offset sorted);
        whole_groups = λ p.
            ap (count p) (sym is_rows)
            ∙ count-sort_by later_row p (
                filter
                  (λ (t : Transaction).
                    any (λ (q : GidQuery). q.gid == t.gid) (page offset limit sorted))
                  db.transactions)
            ∙ count-filter
                (λ (t : Transaction).
                  any (λ (q : GidQuery). q.gid == t.gid) (page offset limit sorted))
                p db.transactions;
        complete = λ e k gid.
            ap (any (λ (q : GidQuery). q.gid == gid)) (whole_page offset limit sorted e k)
            ∙ any-sort_by later_query (λ (q : GidQuery). q.gid == gid) all_groups
            ∙ among gid;
      },
    )
  where
    whole_page :
        (offset limit : ℕ) (qs : List GidQuery)
        → offset ≡ 0
        → length (page offset limit qs) < limit
        → page offset limit qs ≡ qs
    whole_page zero limit qs e k = take-all limit qs k
    whole_page (suc n) limit qs e k = ground arith
