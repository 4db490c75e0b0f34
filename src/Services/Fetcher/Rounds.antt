-- ===== src/Services/Fetcher/Rounds.antt =====
-- The loop over the accounts of a deposit handles its transaction (services/rabbit.rs).
use transactions.Prelude.{true, false, ◌≡◌, refl, Option, none, some, List, [], ◌∷◌, arith, nat_eq}
use transactions.Exec.{ok_or, internal, no_account, missing_address_in_tx, ErrorContext, ErrorKind}
use transactions.Models.{
  AccountId, TransactionId, AccountKind, BlockchainAddress, Currency, currency_eq,
}
use transactions.Models.Records.{Account, BlockchainTransaction, NewTransaction}
use transactions.Repos.{Db}
use transactions.Repos.Accounts
use transactions.Repos.Balances.{get_accounts_balance, balances_of, balance_of, grouped, Groups}
use transactions.Repos.Blockchain.{create_blockchain}
use transactions.Repos.Transactions
use transactions.Services.Fetcher.Depositing.{
  deposit_to, deposit_loop, deposit_tx, entry_for, record_once, needs_approval,
}
use transactions.Services.Fetcher.Rules.{
  IsSeen, SeenAfter, StaysSeen, seen_any, stays, elim_stays, StaysSeen-SeenAfter, seen_kept,
  then_seen, SeenAfter-pure,
}

balance_of_state : (g : Groups) (a : Account) (d : Db) → (balance_of g a d).1 ≡ d
unfolding balance_of
balance_of_state g a d = ground arith

get_accounts_balance_state :
    (a : Account) (d : Db) → (get_accounts_balance a.user_id (a ∷ []) d).1 ≡ d
unfolding get_accounts_balance balances_of
get_accounts_balance_state a d =
    ground (arith, balance_of_state (grouped (a ∷ []) d.transactions) a d)

pub needs_approval_state : (a : Account) (d : Db) → (needs_approval a d).1 ≡ d
unfolding needs_approval
needs_approval_state a d = ground (arith, get_accounts_balance_state a d)

pub create_hashes :
    (x : NewTransaction) (d : Db) → (Transactions.create x d).1.seen_hashes ≡ d.seen_hashes
unfolding Transactions.create
create_hashes x d = ground arith

pub ok_or_state :
    {A : Type 0} (c : ErrorContext) (k : ErrorKind) (o : Option A) (d : Db) → (ok_or c k o d).1 ≡ d
ok_or_state c k none d = refl
ok_or_state c k (some a) d = refl

pub get_by_address_state :
    (x : BlockchainAddress) (c : Currency) (k : AccountKind) (d : Db)
    → (Accounts.get_by_address x c k d).1 ≡ d
unfolding Accounts.get_by_address
get_by_address_state x c k d = refl

module _ (generated : AccountId → TransactionId) (t : BlockchainTransaction) where
  -- The rounds after the first keep the hashes.
  deposit_to-StaysSeen :
      (a : Account) (d : Db) → IsSeen t d → StaysSeen t (deposit_to generated false t a d)
  unfolding deposit_to record_once
  deposit_to-StaysSeen a d h =
      seen_kept t (ok_or missing_address_in_tx internal (entry_for a.address t)) _ d
        (rw (ok_or_state missing_address_in_tx internal (entry_for a.address t) d) h)
        λ entry d1 k1.
          seen_kept t (Accounts.get_by_address a.address a.currency AccountKind.cr) _ d1
            (rw (get_by_address_state a.address a.currency AccountKind.cr d1) k1)
            λ found d2 k2.
              seen_kept t (ok_or no_account internal found) _ d2
                (rw (ok_or_state no_account internal found d2) k2)
                λ c d3 k3.
                  seen_kept t (Transactions.create (deposit_tx generated t entry a c)) _ d3
                    (rw (create_hashes (deposit_tx generated t entry a c) d3) k3) λ row d4 k4. k4

  deposit_loop-StaysSeen :
      (accounts : List Account) (d : Db)
      → IsSeen t d
      → StaysSeen t (deposit_loop generated false t accounts d)
  unfolding deposit_loop
  deposit_loop-StaysSeen [] d h = h
  deposit_loop-StaysSeen (a ∷ rest) d h =
      seen_kept t (deposit_to generated false t a) _ d (stays t _ (deposit_to-StaysSeen a d h))
        λ row d1 k1.
          seen_kept t (needs_approval a) _ d1 (rw (needs_approval_state a d1) k1) λ need d2 k2.
            seen_kept t (deposit_loop generated false t rest) _ d2
              (stays t _ (deposit_loop-StaysSeen rest d2 k2)) λ later d3 k3. k3

  needs_approval-StaysSeen : (a : Account) (d : Db) → IsSeen t d → StaysSeen t (needs_approval a d)
  needs_approval-StaysSeen a d h =
      elim_stays t (needs_approval a d) (rw (needs_approval_state a d) h)

  record_once-SeenAfter : (d : Db) → SeenAfter t (record_once true t d)
  unfolding record_once
  record_once-SeenAfter d = seen_any t (create_blockchain t) _ d λ b d1. SeenAfter-pure t tt d1

  -- The first round writes the hash.
  deposit_to-SeenAfter : (a : Account) (d : Db) → SeenAfter t (deposit_to generated true t a d)
  unfolding deposit_to
  deposit_to-SeenAfter a d =
      seen_any t (ok_or missing_address_in_tx internal (entry_for a.address t)) _ d λ entry d1.
        seen_any t (Accounts.get_by_address a.address a.currency AccountKind.cr) _ d1 λ found d2.
          seen_any t (ok_or no_account internal found) _ d2 λ c d3.
            seen_any t (Transactions.create (deposit_tx generated t entry a c)) _ d3
              λ row d4. then_seen t (record_once true t) _ d4 (record_once-SeenAfter d4) λ u d5 k. k

  pub deposit_loop-SeenAfter :
      (a : Account) (rest : List Account) (d : Db)
      → SeenAfter t (deposit_loop generated true t (a ∷ rest) d)
  unfolding deposit_loop
  deposit_loop-SeenAfter a rest d =
      then_seen t (deposit_to generated true t a) _ d (deposit_to-SeenAfter a d) λ row d1 k1.
        then_seen t (needs_approval a) _ d1
          (StaysSeen-SeenAfter t _ (needs_approval-StaysSeen a d1 k1))
          λ need d2 k2.
            then_seen t (deposit_loop generated false t rest) _ d2
              (StaysSeen-SeenAfter t _ (deposit_loop-StaysSeen rest d2 k2)) λ later d3 k3. k3
