-- ===== src/Models/Records.antt =====
-- The records of models/account.rs, models/transaction.rs, models/blockchain_transaction.rs,
-- models/pending_blockchain_transaction.rs, models/seen_hashes.rs,
-- models/strange_blockchain_transaction.rs and models/user.rs. Times are
-- seconds; a JSON value, which the modelled code only stores, is a number.
use Prim.Native.String.{String}
use transactions.Prelude.{
  ℕ, Bool, Option, List, [], ◌∷◌, none, some, if◌then◌else◌, ◌%◌, ◌%◌, ltb, ◌^◌, ◌^◌, ◌+◌, ◌+◌, ◌-◌,
  ◌-◌,
}
use transactions.Models.{
  UserId, AccountId, TransactionId, ExchangeId, BlockchainAddress, BlockchainTransactionId,
  AuthenticationToken, Recepient, Currency, AccountKind, DailyLimitType, TransactionStatus,
  TransactionKind, TransactionGroupKind, Erc20OperationKind, RecepientType,
}

-- `u128`, held to its range by the operations on it.
abbrev pub Amount : Type 0
Amount = ℕ

abbrev pub Time : Type 0
Time = ℕ

abbrev pub Json : Type 0
Json = ℕ

pub record User : Type 0 where
  pub id : UserId
  pub name : String
  pub authentication_token : AuthenticationToken
  pub created_at : Time
  pub updated_at : Time

-- models/user.rs
pub record NewUser : Type 0 where
  pub id : UserId
  pub name : String
  pub authentication_token : AuthenticationToken

pub record Account : Type 0 where
  pub id : AccountId
  pub user_id : UserId
  pub currency : Currency
  pub address : BlockchainAddress
  pub name : Option String
  pub kind : AccountKind
  pub created_at : Time
  pub updated_at : Time
  pub erc20_approved : Bool
  pub daily_limit_type : DailyLimitType

pub record NewAccount : Type 0 where
  pub id : AccountId
  pub user_id : UserId
  pub currency : Currency
  pub address : BlockchainAddress
  pub name : Option String
  pub kind : AccountKind
  pub daily_limit_type : Option DailyLimitType

pub record UpdateAccount : Type 0 where
  pub name : Option String
  pub erc20_approved : Option Bool

pub record AccountWithBalance : Type 0 where
  pub account : Account
  pub balance : Amount

pub record CreateAccount : Type 0 where
  pub id : AccountId
  pub user_id : UserId
  pub currency : Currency
  pub name : String
  pub daily_limit_type : Option DailyLimitType

pub record Transaction : Type 0 where
  pub id : TransactionId
  pub user_id : UserId
  pub dr_account_id : AccountId
  pub cr_account_id : AccountId
  pub currency : Currency
  pub value : Amount
  pub status : TransactionStatus
  pub blockchain_tx_id : Option BlockchainTransactionId
  pub created_at : Time
  pub updated_at : Time
  pub gid : TransactionId
  pub kind : TransactionKind
  pub group_kind : TransactionGroupKind
  pub related_tx : Option TransactionId
  pub meta : Json

pub record NewTransaction : Type 0 where
  pub id : TransactionId
  pub gid : TransactionId
  pub user_id : UserId
  pub dr_account_id : AccountId
  pub cr_account_id : AccountId
  pub currency : Currency
  pub value : Amount
  pub status : TransactionStatus
  pub blockchain_tx_id : Option BlockchainTransactionId
  pub kind : TransactionKind
  pub group_kind : TransactionGroupKind
  pub related_tx : Option TransactionId
  pub meta : Option Json

-- The `f64` of the exchange rate is the parameter.
pub record CreateTransactionInput (F64 : Type 0) : Type 0 where
  pub id : TransactionId
  pub user_id : UserId
  pub from : AccountId
  pub to : Recepient
  pub to_type : RecepientType
  pub to_currency : Currency
  pub value : Amount
  pub value_currency : Currency
  pub fee : Amount
  pub exchange_id : Option ExchangeId
  pub exchange_rate : Option F64

pub record TransactionAddressInfo : Type 0 where
  pub account_id : Option AccountId
  pub blockchain_address : BlockchainAddress

pub record TransactionOut : Type 0 where
  pub id : TransactionId
  pub user_id : UserId
  pub from : List TransactionAddressInfo
  pub to : TransactionAddressInfo
  pub from_value : Amount
  pub from_currency : Currency
  pub to_value : Amount
  pub to_currency : Currency
  pub fee : Amount
  pub status : TransactionStatus
  pub blockchain_tx_ids : List BlockchainTransactionId
  pub created_at : Time
  pub updated_at : Time

pub record BlockchainTransactionEntryTo : Type 0 where
  pub address : BlockchainAddress
  pub value : Amount

-- A row of `blockchain_transactions` holds the same fields, the lists as JSON.
pub record BlockchainTransaction : Type 0 where
  pub hash : BlockchainTransactionId
  pub from : List BlockchainAddress
  pub to : List BlockchainTransactionEntryTo
  pub block_number : ℕ
  pub currency : Currency
  pub fee : Amount
  pub confirmations : ℕ
  pub erc20_operation_kind : Option Erc20OperationKind

-- `PendingBlockchainTransactionDB` without its two times, which nothing reads.
pub record PendingBlockchainTransaction : Type 0 where
  pub hash : BlockchainTransactionId
  pub from : BlockchainAddress
  pub to : BlockchainAddress
  pub currency : Currency
  pub value : Amount
  pub fee : Amount
  pub erc20_operation_kind : Option Erc20OperationKind

pub record SeenHash : Type 0 where
  pub hash : BlockchainTransactionId
  pub block_number : ℕ
  pub currency : Currency

-- `From<BlockchainTransaction> for NewSeenHashes`
unfoldable pub seen_of : BlockchainTransaction → SeenHash
seen_of t = record { hash = t.hash; block_number = t.block_number; currency = t.currency }

-- `confirmations as i32`, and what `as usize` makes of the column when it is read: the number is cut to
-- 32 bits, and a sign is carried on.
unfoldable pub through_i32 : ℕ → ℕ
through_i32 n = if ltb (n % 2 ^ 32) (2 ^ 31) then n % 2 ^ 32 else n % 2 ^ 32 + (2 ^ 64 - 2 ^ 32)

-- A row of `blockchain_transactions` as it is read back (`NewBlockchainTransactionDB`, and the
-- conversion from `BlockchainTransactionDB`). `as i64` and `as u64` undo each other.
unfoldable pub stored_blockchain : BlockchainTransaction → BlockchainTransaction
stored_blockchain t = record t { confirmations = through_i32 t.confirmations }

-- `serde_json::to_value(to).unwrap_or_default()`, null for `none`: the amounts are `u128`, which
-- `to_value` refuses, as a comment of models/blockchain_transaction.rs says.
unfoldable pub outputs_value :
    List BlockchainTransactionEntryTo → Option (List BlockchainTransactionEntryTo)
outputs_value [] = some []
outputs_value (e ∷ es) = none

-- A row of `strange_blockchain_transactions`; its two numbers stand for the bits of an `i64` and of an
-- `i32`.
pub record StrangeBlockchainTransaction : Type 0 where
  pub hash : BlockchainTransactionId
  pub from : List BlockchainAddress
  pub to : Option (List BlockchainTransactionEntryTo)
  pub block_number : ℕ
  pub currency : Currency
  pub fee : Amount
  pub confirmations : ℕ
  pub commentary : String
  pub erc20_operation_kind : Option Erc20OperationKind

-- `From<(BlockchainTransaction, String)> for NewStrangeBlockchainTransactionDB`
unfoldable pub strange_of : BlockchainTransaction → String → StrangeBlockchainTransaction
unfolding outputs_value
strange_of t commentary = record {
  hash = t.hash;
  from = t.from;
  to = outputs_value t.to;
  block_number = t.block_number;
  currency = t.currency;
  fee = t.fee;
  confirmations = t.confirmations % 2 ^ 32;
  commentary = commentary;
  erc20_operation_kind = t.erc20_operation_kind;
}

-- `From<PendingBlockchainTransactionDB> for BlockchainTransaction`
unfoldable pub from_pending : PendingBlockchainTransaction → BlockchainTransaction
from_pending p = record {
  hash = p.hash;
  from = p.from ∷ [];
  to = record { address = p.to; value = p.value } ∷ [];
  block_number = 0;
  currency = p.currency;
  fee = p.fee;
  confirmations = 0;
  erc20_operation_kind = p.erc20_operation_kind;
}

-- `From<(CreateAccount, BlockchainAddress)> for NewAccount`
unfoldable pub new_account : CreateAccount → BlockchainAddress → NewAccount
new_account create address = record {
  id = create.id;
  user_id = create.user_id;
  currency = create.currency;
  address = address;
  name = some create.name;
  kind = AccountKind.cr;
  daily_limit_type = create.daily_limit_type;
}

-- `NewAccount::create_debit`, its generated id an argument.
unfoldable pub create_debit : AccountId → NewAccount → NewAccount
create_debit id a = record {
  id = id;
  user_id = a.user_id;
  currency = a.currency;
  address = a.address;
  name = none;
  kind = AccountKind.dr;
  daily_limit_type = a.daily_limit_type;
}
