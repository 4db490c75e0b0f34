-- ===== src/Services/Blockchain/Order.antt =====
-- The nonces of the transactions that are sent one after another from one address.
use transactions.Prelude.{
  ℕ, ◌+◌, ◌-◌, ◌%◌, ◌≤◌, ◌<◌, ◌≡◌, refl, max, inl, inr, Option, none, some, List, [], ◌∷◌, arith,
  ltb, if◌then◌else◌, All, length, Option-cases,
}
use transactions.Exec.{Result, ok, err}
use transactions.Models.{BlockchainAddress}
use transactions.Models.Records.{Time}
use transactions.Repos.{Db, Nonce}
use transactions.Repos.Blockchain.{find_nonce, put_nonce, get_nonce, set_nonce}
use transactions.Repos.Nonces.{nonce_row, stamp, find_nonce-put_nonce}
use transactions.Services.Blockchain.Nonces.{take_nonce, choose_nonce, u64_mod}

abbrev pub picked : Time → ℕ → Option Nonce → ℕ
picked now e none = e
picked now e (some m) = if ltb 60 (now - m.updated_at) then e else max m.value e

-- The rows after the choice of a nonce, before the next one is written.
abbrev settled : BlockchainAddress → Time → ℕ → List Nonce → Option Nonce → List Nonce
settled a now e l none = l
settled a now e l (some m) = if ltb 60 (now - m.updated_at) then put_nonce a e now l else l

choose_nonce_lem :
    (a : BlockchainAddress) (e : ℕ) (db : Db) (o : Option Nonce)
    → choose_nonce a e o db
      ≡ (ok (picked db.now e o), record db { nonces = settled a db.now e db.nonces o })
unfolding choose_nonce set_nonce
choose_nonce_lem a e db none = refl
choose_nonce_lem a e db (some m) = ground arith

stamp-settled :
    (a : BlockchainAddress) (now e : ℕ) (l : List Nonce) (o : Option Nonce)
    → find_nonce a l ≡ o
    → picked now e o + 1 < u64_mod
    → stamp now (picked now e o + 1) (find_nonce a (settled a now e l o)) ≡ now
stamp-settled a now e l none h k = rw h
stamp-settled a now e l (some m) h k = ground (arith, find_nonce-put_nonce a e now l)

-- The rows after a nonce was taken.
abbrev pub rows_after : BlockchainAddress → ℕ → Db → List Nonce
rows_after a e db =
    put_nonce a ((picked db.now e (find_nonce a db.nonces) + 1) % u64_mod) db.now
      (settled a db.now e db.nonces (find_nonce a db.nonces))

pub take_nonce_lem :
    (a : BlockchainAddress) (e : ℕ) (db : Db)
    → take_nonce a e db
      ≡ (ok (picked db.now e (find_nonce a db.nonces)), record db { nonces = rows_after a e db })
unfolding take_nonce get_nonce set_nonce
take_nonce_lem a e db = rw (choose_nonce_lem a e db (find_nonce a db.nonces))

-- What is stored after a nonce was taken is one more, since now.
pub rows_after_lem :
    (a : BlockchainAddress) (e : ℕ) (db : Db)
    → picked db.now e (find_nonce a db.nonces) + 1 < u64_mod
    → find_nonce a (rows_after a e db)
      ≡ some (nonce_row a (picked db.now e (find_nonce a db.nonces) + 1) db.now)
rows_after_lem a e db h =
    let o = find_nonce a db.nonces in
    let s = stamp-settled a db.now e db.nonces o refl h in
    let m : (picked db.now e o + 1) % u64_mod ≡ picked db.now e o + 1 = omega arith in
    rw
      (m, find_nonce-put_nonce a (picked db.now e o + 1) db.now (settled a db.now e db.nonces o), s)

-- Nonces taken one after another from one address, each so many seconds after the one before, with
-- the nonce that the blockchain names at that time.
abbrev pub taken : (Db → List ℕ) → Result ℕ × Db → List ℕ
taken rest (ok n, db) = n ∷ rest db
taken rest (err c k, db) = []

unfoldable pub take_run : BlockchainAddress → List (ℕ × ℕ) → Db → List ℕ
take_run a [] db = []
take_run a ((delay, e) ∷ rest) db =
    taken (take_run a rest) (take_nonce a e (record db { now = db.now + delay }))

-- Each number is above the one before, the first at least `from`.
abbrev pub RisesFrom : ℕ → List ℕ → Type 0
RisesFrom from [] = Unit
RisesFrom from (n ∷ ns) = (from ≤ n) × RisesFrom (n + 1) ns

run_after :
    (a : BlockchainAddress) (bound : ℕ) (requests : List (ℕ × ℕ)) (n : ℕ) (db : Db)
    → find_nonce a db.nonces ≡ some (nonce_row a n db.now)
    → All (λ (r : ℕ × ℕ). (r.0 ≤ 60) × (r.1 ≤ bound)) requests
    → n + length requests < u64_mod
    → bound + length requests < u64_mod
    → RisesFrom n (take_run a requests db) × (length (take_run a requests db) ≡ length requests)
unfolding take_run
run_after a bound [] n db h k b t = (tt, refl)
run_after a bound ((delay, e) ∷ rest) n db h ((small, le), k) b t =
    let later = record db { now = db.now + delay } in
    let m = picked later.now e (find_nonce a db.nonces) in
    let p : m ≡ max n e = ground arith in
    let (r, s) =
      run_after a bound rest (m + 1) (record later { nonces = rows_after a e later })
        (rows_after_lem a e later (omega (arith, p))) k (omega (arith, p)) (omega arith) in
    rw (take_nonce_lem a e later) ((omega (arith, p), r), omega (arith, s))

picked_bound :
    (a : BlockchainAddress) (bound e : ℕ) (db : Db)
    → e ≤ bound
    → ((m : Nonce) → find_nonce a db.nonces ≡ some m → m.value ≤ bound)
    → picked db.now e (find_nonce a db.nonces) ≤ bound
picked_bound a bound e db le b = elim (Option-cases (find_nonce a db.nonces)) [
  | inl absent ↦ rw absent le
  | inr (m, found) ↦ rw found (ground (arith, b m found))
]

-- Of transactions that are sent from one address, none more than a minute after the one before, each
-- gets a nonce, and each a larger one than all before it, whatever nonces the blockchain names,
-- given that these and the one that is stored leave room below 2 ^ 64 for the number of
-- transactions.
pub take_run_rises :
    (a : BlockchainAddress) (bound : ℕ) (requests : List (ℕ × ℕ)) (db : Db)
    → All (λ (r : ℕ × ℕ). (r.0 ≤ 60) × (r.1 ≤ bound)) requests
    → ((m : Nonce) → find_nonce a db.nonces ≡ some m → m.value ≤ bound)
    → bound + length requests < u64_mod
    → RisesFrom 0 (take_run a requests db) × (length (take_run a requests db) ≡ length requests)
unfolding take_run
take_run_rises a bound [] db k b t = (tt, refl)
take_run_rises a bound ((delay, e) ∷ rest) db ((small, le), k) b t =
    let later = record db { now = db.now + delay } in
    let n = picked later.now e (find_nonce a db.nonces) in
    let p = picked_bound a bound e later le b in
    let (r, s) =
      run_after a bound rest (n + 1) (record later { nonces = rows_after a e later })
        (rows_after_lem a e later (omega (arith, p))) k (omega (arith, p)) (omega arith) in
    rw (take_nonce_lem a e later) ((omega arith, r), omega (arith, s))
