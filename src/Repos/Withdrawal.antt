-- ===== src/Repos/Withdrawal.antt =====
-- repos/transactions.rs: `get_accounts_for_withdrawal`, which chooses the accounts that pay a
-- withdrawal out on the blockchain and how much each pays.
pub mod Take
pub mod Sums
pub mod Payers
pub mod Choice
use transactions.Prelude.{
  ◌+◌, ◌-◌, Bool, false, ◌&&◌, ◌||◌, not, Option, none, some, List, [], ◌∷◌, ◌==◌, nat_eq,
  if◌then◌else◌, leb, ltb, filter, any,
}
use transactions.Exec.{Exec, Result, ok, err, pure, ◌>>=◌, insufficient_withdrawal_funds, internal}
use transactions.Models.{
  AccountId, BlockchainAddress, Currency, eth, stq, btc, currency_eq, AccountKind, account_kind_eq,
  pending, status_eq,
}
use transactions.Models.Records.{Account, AccountWithBalance, Transaction, Amount}
use transactions.Amount.{checked_sub}
use transactions.Repos.{Db, read_numeric}

-- `MIN_SIGNIFICANT_SATOSHIS`, `MIN_SIGNIFICANT_ETH`, `MIN_SIGNIFICANT_STQ`
unfoldable pub minimum_balance : Currency → Amount
minimum_balance btc = 1000
minimum_balance eth = 500_000_000_000_000
minimum_balance stq = 1_000_000_000_000_000_000

-- A withdrawal of STQ costs the paying account nothing.
unfoldable pub fee_of : Currency → Amount → Amount
fee_of stq total_fee = 0
fee_of eth total_fee = total_fee
fee_of btc total_fee = total_fee

-- A `HashMap` from accounts to amounts.
abbrev pub Sums : Type 0
Sums = List (AccountId × Amount)

-- `SELECT SUM(value), key GROUP BY key`
unfoldable pub add_sum : AccountId → Amount → Sums → Sums
add_sum id v [] = (id, v) ∷ []
add_sum id v ((k, w) ∷ sums) = if k == id then (k, w + v) ∷ sums else (k, w) ∷ add_sum id v sums

unfoldable pub group_sums : (Transaction → AccountId) → Currency → List Transaction → Sums
unfolding add_sum
group_sums key currency [] = []
group_sums key currency (t ∷ txs) =
    let sums = group_sums key currency txs in
    if t.currency == currency then add_sum (key t) t.value sums else sums

-- Each sum is read as an `Amount`.
unfoldable pub read_sums : Sums → Exec Db Sums
read_sums [] = pure []
read_sums ((k, v) ∷ sums) = do v' ← read_numeric v; sums' ← read_sums sums; pure ((k, v') ∷ sums')

unfoldable pub or_zero : Option Amount → Amount
or_zero none = 0
or_zero (some a) = a

-- `if let Some(dr_sum) = dr_sum_accounts.get_mut(&id) { *dr_sum = ..checked_sub(..) }`
unfoldable pub subtract_sum : AccountId → Amount → Sums → Sums
unfolding checked_sub or_zero
subtract_sum id v [] = []
subtract_sum id v ((k, w) ∷ sums) =
    if k == id then (k, or_zero (checked_sub w v)) ∷ sums else (k, w) ∷ subtract_sum id v sums

-- The loop over the credit sums.
unfoldable pub subtract_sums : Sums → Sums → Sums
unfolding subtract_sum
subtract_sums [] sums = sums
subtract_sums ((k, v) ∷ cr_sums) sums = subtract_sums cr_sums (subtract_sum k v sums)

unfoldable pub remove_sum : AccountId → Sums → Sums
remove_sum id [] = []
remove_sum id ((k, v) ∷ sums) =
    let rest = remove_sum id sums in if k == id then rest else (k, v) ∷ rest

-- The loop over the pending transactions.
unfoldable pub remove_pending : Currency → List Transaction → Sums → Sums
unfolding remove_sum
remove_pending currency [] sums = sums
remove_pending currency (t ∷ txs) sums =
    remove_pending currency txs (
      if currency == btc
      then remove_sum t.dr_account_id (remove_sum t.cr_account_id sums)
      else sums)

unfoldable pub sum_of : AccountId → Sums → Option Amount
sum_of id [] = none
sum_of id ((k, v) ∷ sums) = if k == id then some v else sum_of id sums

unfoldable pub is_key : AccountId → Sums → Bool
is_key id [] = false
is_key id ((k, v) ∷ sums) = k == id || is_key id sums

unfoldable pub addresses_of : List AccountId → List Account → List BlockchainAddress
addresses_of ids [] = []
addresses_of ids (a ∷ rest) =
    let tail = addresses_of ids rest in
    if any (λ id. a.id == id) ids then a.address ∷ tail else tail

-- The rows that the last query and the filter after it keep.
unfoldable pub eligible : Currency → Sums → List BlockchainAddress → Account → Bool
eligible currency remaining fees_addresses a =
    is_key a.id remaining
    && a.kind == AccountKind.dr
    && not (any (λ x. a.address == x) fees_addresses)
    && (not (currency == stq) || a.erc20_approved)

unfoldable pub with_balances :
    Currency → Sums → List BlockchainAddress → List Account → List (Account × Amount)
with_balances currency remaining fees_addresses [] = []
with_balances currency remaining fees_addresses (a ∷ rest) =
    let tail = with_balances currency remaining fees_addresses rest in
    if eligible currency remaining fees_addresses a
    then (a, or_zero (sum_of a.id remaining)) ∷ tail
    else tail

-- The sums that are above the minimum.
unfoldable pub above : Amount → Sums → Sums
above minimum [] = []
above minimum ((k, v) ∷ sums) =
    let tail = above minimum sums in if ltb minimum v then (k, v) ∷ tail else tail

-- The accounts that may pay, with their balances on the books: the queries of
-- `get_accounts_for_withdrawal`, up to the loop that takes from them.
unfoldable pub res_accounts : List AccountId → Currency → Exec Db (List (Account × Amount))
res_accounts system_fees_accounts_ids currency db =
    (do
      dr_sums ← read_sums (group_sums (λ t. t.dr_account_id) currency db.transactions)
      cr_sums ← read_sums (group_sums (λ t. t.cr_account_id) currency db.transactions)
      let remaining = above (minimum_balance currency) (subtract_sums cr_sums dr_sums)
      let pending_txs =
          filter (λ (t : Transaction). t.currency == currency && t.status == pending)
            db.transactions
      let remaining' = remove_pending currency pending_txs remaining
      let fees_addresses = addresses_of system_fees_accounts_ids db.accounts
      pure (with_balances currency remaining' fees_addresses db.accounts))
      db

-- What an account can pay, net of the fee.
unfoldable pub available : Amount → Amount → Amount
unfolding checked_sub or_zero
available fee balance = or_zero (checked_sub balance fee)

-- The loop: the accounts taken, and what is left to pay.
unfoldable pub take_accounts :
    Amount → Amount → List (Account × Amount) → List AccountWithBalance × Amount
take_accounts fee value [] = ([], value)
take_accounts fee value ((a, balance) ∷ rest) =
    let later = take_accounts fee (value - available fee balance) rest in
    if leb value (available fee balance)
    then (record { account = a; balance = value } ∷ [], 0)
    else (record { account = a; balance = available fee balance } ∷ later.0, later.1)

abbrev pub all_paid : List AccountWithBalance × Amount → Result (List AccountWithBalance)
all_paid (taken, left) = if left == 0 then ok taken else err insufficient_withdrawal_funds internal

-- `get_accounts_for_withdrawal`
unfoldable pub get_accounts_for_withdrawal :
    List AccountId → Amount → Currency → Amount → Exec Db (List AccountWithBalance)
get_accounts_for_withdrawal system_fees_accounts_ids value currency total_fee =
    res_accounts system_fees_accounts_ids currency >>= λ accounts db.
    (all_paid (take_accounts (fee_of currency total_fee) value accounts), db)
