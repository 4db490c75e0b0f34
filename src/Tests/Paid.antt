-- ===== src/Tests/Paid.antt =====
-- A payment of the small bank, asked for with a token.
use transactions.Services.Payments.{create_transaction}
use transactions.Services.Ledger.Solvency.{IsSolvent}
use transactions.Services.System.{liquidity_account_id}
use transactions.Services.Payments.Answers.{Answered, create_transaction-Answered}
use transactions.Services.Payments.Solvency.{
  NamesCredit, HasCreditLiquidity, create_transaction-IsSolvent,
}
use transactions.Prelude.{some, [], arith}
use transactions.Models.{btc, eth, stq}
use transactions.Repos.Accounts.{with_id}
use transactions.Tests.{numbers}
use transactions.Tests.Classified.{limits}
use transactions.Tests.Exchanges.{system, market, market-IsSolvent, input, agreed}
use transactions.Tests.Payouts.{sender, sender_leaves}

alice_is_credit : NamesCredit numbers some limits system [] sender agreed market 10
unfolding with_id
alice_is_credit a h = ground arith

liquidity_is_credit : HasCreditLiquidity numbers some limits system [] sender agreed market
unfolding liquidity_account_id with_id
liquidity_is_credit btc a h = ground arith
liquidity_is_credit eth a h = ground arith
liquidity_is_credit stq a h = ground arith

create_transaction-IsSolvent_example :
    IsSolvent (create_transaction numbers some limits system [] sender agreed 1 input market).1
create_transaction-IsSolvent_example =
    create_transaction-IsSolvent numbers some limits system [] sender agreed sender_leaves 1 input
      market alice_is_credit liquidity_is_credit market-IsSolvent

create_transaction-Answered_example :
    Answered numbers some limits system [] sender agreed 1 input market
      (create_transaction numbers some limits system [] sender agreed 1 input market)
create_transaction-Answered_example =
    create_transaction-Answered numbers some limits system [] sender agreed sender_leaves 1 input
      market
