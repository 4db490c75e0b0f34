-- ===== src/Repos/Nonces.antt =====
-- What is read back of a nonce that was written (repos/key_values.rs).
use transactions.Prelude.{
  ℕ, ◌≡◌, ◌≢◌, Option, none, some, List, [], ◌∷◌, arith, ◌==◌, nat_eq, nat_beq_iff, if◌then◌else◌,
}
use transactions.Models.{BlockchainAddress}
use transactions.Models.Records.{Time}
use transactions.Repos.{Nonce}
use transactions.Repos.Blockchain.{find_nonce, put_nonce}

-- The time of a row after a write, by the row before it.
abbrev pub stamp : Time → ℕ → Option Nonce → Time
stamp now value none = now
stamp now value (some n) = if n.value == value then n.updated_at else now

abbrev pub nonce_row : BlockchainAddress → ℕ → Time → Nonce
nonce_row address value time = record { address = address; value = value; updated_at = time }

pub find_nonce-put_nonce :
    (a : BlockchainAddress) (v now : ℕ) (l : List Nonce)
    → find_nonce a (put_nonce a v now l) ≡ some (nonce_row a v (stamp now v (find_nonce a l)))
unfolding find_nonce put_nonce
find_nonce-put_nonce a v now [] = ground (arith, nat_beq_iff a a)
find_nonce-put_nonce a v now (n ∷ rest) =
    ground (arith, nat_beq_iff n.address a, find_nonce-put_nonce a v now rest)

pub find_nonce-put_nonce_other :
    (a b : BlockchainAddress) (v now : ℕ) (l : List Nonce)
    → a ≢ b
    → find_nonce b (put_nonce a v now l) ≡ find_nonce b l
unfolding find_nonce put_nonce
find_nonce-put_nonce_other a b v now [] h = ground (arith, nat_beq_iff a b)
find_nonce-put_nonce_other a b v now (n ∷ rest) h = ground (
  arith,
  nat_beq_iff n.address a,
  nat_beq_iff n.address b,
  find_nonce-put_nonce_other a b v now rest h,
)
