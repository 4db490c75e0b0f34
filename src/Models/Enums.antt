-- ===== src/Models/Enums.antt =====
-- The enumerations of models/: currency.rs, account_kind.rs, daily_limit_type.rs,
-- transaction_status.rs, transaction_kind.rs, blockchain_transaction.rs and recepient.rs.
use transactions.Prelude.{◌≡◌, ◌↔◌, Bool, true, false, arith, PartialEq}

pub data Currency : Type 0 where
  eth stq btc : Currency

pub data AccountKind : Type 0 where
  cr dr : AccountKind

pub data DailyLimitType : Type 0 where
  default_limit unlimited : DailyLimitType

pub data TransactionStatus : Type 0 where
  pending done : TransactionStatus

pub data TransactionGroupKind : Type 0 where
  deposit internal internal_multi withdrawal withdrawal_multi approval reversal :
      TransactionGroupKind

pub data TransactionKind : Type 0 where
  fee blockchain_fee multi_from multi_to internal deposit withdrawal approval_transfer approval_call
        reversal :
      TransactionKind

pub data Erc20OperationKind : Type 0 where
  approve transfer_from : Erc20OperationKind

pub data RecepientType : Type 0 where
  account address : RecepientType

abbrev pub currency_beq : Currency → Currency → Bool
currency_beq Currency.eth Currency.eth = true
currency_beq Currency.stq Currency.stq = true
currency_beq Currency.btc Currency.btc = true
currency_beq _ _ = false

pub currency_beq_iff : (a b : Currency) → (currency_beq a b ≡ true) ↔ (a ≡ b)
currency_beq_iff a b = ground arith

instance abbrev pub currency_eq : PartialEq Currency
currency_eq = record { eq = currency_beq; eq_iff = currency_beq_iff }

abbrev pub account_kind_beq : AccountKind → AccountKind → Bool
account_kind_beq AccountKind.cr AccountKind.cr = true
account_kind_beq AccountKind.dr AccountKind.dr = true
account_kind_beq _ _ = false

pub account_kind_beq_iff : (a b : AccountKind) → (account_kind_beq a b ≡ true) ↔ (a ≡ b)
account_kind_beq_iff a b = ground arith

instance abbrev pub account_kind_eq : PartialEq AccountKind
account_kind_eq = record { eq = account_kind_beq; eq_iff = account_kind_beq_iff }

abbrev pub daily_limit_type_beq : DailyLimitType → DailyLimitType → Bool
daily_limit_type_beq DailyLimitType.default_limit DailyLimitType.default_limit = true
daily_limit_type_beq DailyLimitType.unlimited DailyLimitType.unlimited = true
daily_limit_type_beq _ _ = false

pub daily_limit_type_beq_iff : (a b : DailyLimitType) → (daily_limit_type_beq a b ≡ true) ↔ (a ≡ b)
daily_limit_type_beq_iff a b = ground arith

instance abbrev pub daily_limit_type_eq : PartialEq DailyLimitType
daily_limit_type_eq = record { eq = daily_limit_type_beq; eq_iff = daily_limit_type_beq_iff }

abbrev pub status_beq : TransactionStatus → TransactionStatus → Bool
status_beq TransactionStatus.pending TransactionStatus.pending = true
status_beq TransactionStatus.done TransactionStatus.done = true
status_beq _ _ = false

pub status_beq_iff : (a b : TransactionStatus) → (status_beq a b ≡ true) ↔ (a ≡ b)
status_beq_iff a b = ground arith

instance abbrev pub status_eq : PartialEq TransactionStatus
status_eq = record { eq = status_beq; eq_iff = status_beq_iff }

abbrev pub group_kind_beq : TransactionGroupKind → TransactionGroupKind → Bool
group_kind_beq TransactionGroupKind.deposit TransactionGroupKind.deposit = true
group_kind_beq TransactionGroupKind.internal TransactionGroupKind.internal = true
group_kind_beq TransactionGroupKind.internal_multi TransactionGroupKind.internal_multi = true
group_kind_beq TransactionGroupKind.withdrawal TransactionGroupKind.withdrawal = true
group_kind_beq TransactionGroupKind.withdrawal_multi TransactionGroupKind.withdrawal_multi = true
group_kind_beq TransactionGroupKind.approval TransactionGroupKind.approval = true
group_kind_beq TransactionGroupKind.reversal TransactionGroupKind.reversal = true
group_kind_beq _ _ = false

pub group_kind_beq_iff : (a b : TransactionGroupKind) → (group_kind_beq a b ≡ true) ↔ (a ≡ b)
group_kind_beq_iff a b = ground arith

instance abbrev pub group_kind_eq : PartialEq TransactionGroupKind
group_kind_eq = record { eq = group_kind_beq; eq_iff = group_kind_beq_iff }

abbrev pub kind_beq : TransactionKind → TransactionKind → Bool
kind_beq TransactionKind.fee TransactionKind.fee = true
kind_beq TransactionKind.blockchain_fee TransactionKind.blockchain_fee = true
kind_beq TransactionKind.multi_from TransactionKind.multi_from = true
kind_beq TransactionKind.multi_to TransactionKind.multi_to = true
kind_beq TransactionKind.internal TransactionKind.internal = true
kind_beq TransactionKind.deposit TransactionKind.deposit = true
kind_beq TransactionKind.withdrawal TransactionKind.withdrawal = true
kind_beq TransactionKind.approval_transfer TransactionKind.approval_transfer = true
kind_beq TransactionKind.approval_call TransactionKind.approval_call = true
kind_beq TransactionKind.reversal TransactionKind.reversal = true
kind_beq _ _ = false

pub kind_beq_iff : (a b : TransactionKind) → (kind_beq a b ≡ true) ↔ (a ≡ b)
kind_beq_iff a b = ground arith

instance abbrev pub kind_eq : PartialEq TransactionKind
kind_eq = record { eq = kind_beq; eq_iff = kind_beq_iff }

abbrev pub erc20_beq : Erc20OperationKind → Erc20OperationKind → Bool
erc20_beq Erc20OperationKind.approve Erc20OperationKind.approve = true
erc20_beq Erc20OperationKind.transfer_from Erc20OperationKind.transfer_from = true
erc20_beq _ _ = false

pub erc20_beq_iff : (a b : Erc20OperationKind) → (erc20_beq a b ≡ true) ↔ (a ≡ b)
erc20_beq_iff a b = ground arith

instance abbrev pub erc20_eq : PartialEq Erc20OperationKind
erc20_eq = record { eq = erc20_beq; eq_iff = erc20_beq_iff }

abbrev pub recepient_type_beq : RecepientType → RecepientType → Bool
recepient_type_beq RecepientType.account RecepientType.account = true
recepient_type_beq RecepientType.address RecepientType.address = true
recepient_type_beq _ _ = false

pub recepient_type_beq_iff : (a b : RecepientType) → (recepient_type_beq a b ≡ true) ↔ (a ≡ b)
recepient_type_beq_iff a b = ground arith

instance abbrev pub recepient_type_eq : PartialEq RecepientType
recepient_type_eq = record { eq = recepient_type_beq; eq_iff = recepient_type_beq_iff }
