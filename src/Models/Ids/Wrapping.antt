-- ===== src/Models/Ids/Wrapping.antt =====
-- The identifiers of a group of rows (models/transaction_id.rs).
use transactions.Prelude.{ℕ, zero, suc, ◌+◌, ◌-◌, ◌%◌, ◌<◌, ◌≡◌, ◌≢◌, arith}
use transactions.Models.Ids.{TransactionId, next, prev, last_byte}

-- `next` taken a number of times, as a service does for the rows of a group.
unfoldable pub nexts : ℕ → TransactionId → TransactionId
nexts zero id = id
nexts (suc n) id = next (nexts n id)

nexts_value : (n : ℕ) (id : TransactionId) → nexts n id ≡ id - id % 256 + (id % 256 + n) % 256
unfolding nexts next
nexts_value zero id = omega arith
nexts_value (suc n) id = omega (arith, nexts_value n id)

-- `prev` and `next` undo each other, also where the last byte wraps.
pub prev-next : (id : TransactionId) → (prev (next id) ≡ id) × (next (prev id) ≡ id)
unfolding prev next
prev-next id = (omega arith, omega arith)

-- The first 256 identifiers that `next` gives, the one started from included, are all different,
-- and differ from the first in the last byte only.
pub nexts_distinct :
    (id : TransactionId) (m n : ℕ)
    → m < n
    → n < 256
    → (nexts m id ≢ nexts n id) × (nexts n id - last_byte (nexts n id) ≡ id - last_byte id)
unfolding last_byte
nexts_distinct id m n h k =
    (λ e. omega (arith, nexts_value m id, nexts_value n id), omega (arith, nexts_value n id))
