-- ===== src/Lib.antt =====
-- The transactions service: accounts of users in BTC, ETH and STQ, payments between them, and
-- payments to and from the blockchains, kept as a double-entry ledger in PostgreSQL (src/).
--
-- A request is authenticated, classified (src/services/transactions/classifier.rs) and, by its
-- kind, becomes rows of the table `transactions` (src/services/transactions/mod.rs). Every row
-- moves a value from the account that it debits to the one that it credits. A balance is never
-- stored: it is the sum over the rows (src/repos/transactions.rs). A user's account is a credit
-- account, and the wallet behind it a debit account, which pays withdrawals to the blockchain.
--
--   Prelude, Prelude/*        tests, lists over native numbers, equality of keys, sorting
--   Exec, Exec/Reading        errors and fallible steps on a state (src/services/error.rs), and the
--                             rollback of src/repos/executor.rs
--   Float                     the operations on `f64`, a parameter
--   Models, Models/*          src/models: enumerations, identifiers and records
--   Amount, Amount/*          src/models/amount.rs: checked operations, conversion between
--                             currencies, the codec of NUMERIC
--   Repos/Tables              the tables as lists of rows
--   Repos/Accounts            src/repos/accounts.rs
--   Repos/Transactions        src/repos/transactions.rs: rows and statuses
--   Repos/Balances, /*        the balance queries of that file, and how they agree
--   Repos/Withdrawal, /*      `get_accounts_for_withdrawal` of that file: which accounts pay
--   Models/Normalization, /*  the canonical form of src/models/blockchain_transaction.rs
--   Repos/Users, /Blockchain  src/repos: users, blockchain transactions, nonces
--   Repos/Nonces, /Seen       reading a nonce back; hashes that were handled, strange transactions
--   Models/Sending            what is sent to the clients, and the pending rows kept of it
--   Services/Clients          the clients of the other services, a parameter, and their errors
--   Services/Fee, /*          src/services/fee.rs
--   Services/Users, /*        src/services/users.rs
--   Services/Auth, /Accounts  src/services/auth.rs, src/services/accounts.rs
--   Services/System           src/services/system.rs
--   Services/Transfers, /*    payments between accounts of src/services/transactions/mod.rs
--   Services/Blockchain, /*   src/services/transactions/blockchain.rs: the trait, an interface, and its
--                             implementation: fees, nonces, sending
--   Services/Fetcher, /*      src/services/rabbit.rs: what the blockchains report
--   Services/Payments, /*     `create_transaction` of src/services/transactions/mod.rs
--   Services/Groups, /*       the readers of that file, and `group_transactions`
--   Repos/Listing, /*         the queries of src/repos that list a page of rows
--   Services/Withdrawals, /*  payments to a blockchain of src/services/transactions/mod.rs
--   Services/Converter, /*    src/services/transactions/converter.rs: rows as shown to the client
--   Services/Ledger, /*       `create_base_tx` of src/services/transactions/mod.rs
--   Services/Classifier, /*   src/services/transactions/classifier.rs
--   Tests, Tests/*            a small bank: runs of the code on it, and the theorems applied to it
--
-- State. `Db` is a record of the tables, each a list of rows in the order of insertion, and the
-- clock. An operation of a repository or of a service is a function from a `Db` to a result and a
-- `Db`: an error is a value, and the state after it is kept, so that a theorem can say that a
-- failing operation changes nothing. A database transaction that fails is rolled back.
--
-- Numbers. An `Amount` is a natural number below 2 ^ 128 where the code checks it, and the checked
-- operations test for that; products that the source leaves unchecked wrap, as in a release build.
-- Identifiers, addresses and hashes are numbers; the last byte of a `Uuid` is its remainder by 256.
--
-- A row of a blockchain transaction keeps what its columns keep: the confirmations pass through an
-- `i32`, and a transaction that was put aside loses its outputs, which `to_value` refuses. A HashMap
-- gives its entries in an order that is a parameter; what needs it asks for an order of the entries.
--
-- Fuel. `to_base10000` is given ten rounds, which hold every number below 10000 ^ 10 and so every
-- `u128`; all other loops are by recursion on a list.
--
-- Not modelled: `f64` arithmetic, the parsing of a `Uuid`, of JSON and of UTF-8, and the length of a
-- name, which are parameters; SQL itself, of which each query is written as a function on the rows;
-- HTTP, AMQP, logging, configuration and the mocks. The clients of the other services are
-- parameters: what they answer depends on the time, and they do not touch the database. Pauses and
-- delays are left out, as they change no table.
pub mod Prelude
pub mod Exec
pub mod Float
pub mod Models
pub mod Amount
pub mod Repos
pub mod Services
pub mod Tests
