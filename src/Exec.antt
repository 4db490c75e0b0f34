-- ===== src/Exec.antt =====
-- Fallible operations on a state (services/error.rs, repos/error.rs, repos/executor.rs): each
-- returns its result and the state that it leaves, also after an error.
pub mod Reading
use mathlib.Core.Path.{subst}
use transactions.Prelude.{◌≡◌, refl, Bool, true, false, Option, none, some}

-- `ErrorKind` of services/error.rs; the text of `InvalidInput` is not kept.
pub data ErrorKind : Type 0 where
  unauthorized malformed_input invalid_input internal not_found : ErrorKind

-- The contexts of services/error.rs and repos/error.rs that the modelled code raises; `database` is
-- an error of a query, which carries none, and `panicked` a panic, which fails the request.
pub data ErrorContext : Type 0 where
  invalid_token no_account not_enough_funds invalid_currency missing_exchange_rate : ErrorContext
  balance_overflow invalid_transaction invalid_uuid not_supported invalid_value : ErrorContext
  invalid_blockchain_transaction_structure invalid_transaction_structure : ErrorContext
  limit_exceeded missing_address_in_tx insufficient_withdrawal_funds : ErrorContext
  validation client database panicked utf8 json : ErrorContext

pub data Result {ℓ} (A : Type ℓ) : Type ℓ where
  ok : A → Result A
  err : ErrorContext → ErrorKind → Result A

abbrev pub Exec {ℓ} : Type ℓ → Type ℓ → Type ℓ
Exec S A = S → Result A × S

module _ {ℓ} {S A : Type ℓ} where
  abbrev pub pure : A → Exec S A
  pure a s = (ok a, s)

  abbrev pub raise : ErrorContext → ErrorKind → Exec S A
  raise c k s = (err c k, s)

  abbrev pub gets : (S → A) → Exec S A
  gets f s = (ok (f s), s)

  -- `Option::ok_or`
  abbrev pub ok_or : ErrorContext → ErrorKind → Option A → Exec S A
  ok_or c k none = raise c k
  ok_or c k (some a) = pure a

  -- A closure run inside a database transaction: an error rolls the state back.
  abbrev pub rollback : S → Result A × S → Result A × S
  rollback s (ok a, s') = (ok a, s')
  rollback s (err c k, s') = (err c k, s)

  abbrev pub execute_transaction : Exec S A → Exec S A
  execute_transaction m s = rollback s (m s)

module _ {ℓ} {S A B : Type ℓ} where
  abbrev pub continue : (A → Exec S B) → Result A × S → Result B × S
  continue f (ok a, s) = f a s
  continue f (err c k, s) = (err c k, s)

  infixl 5 ◌>>=◌ ◌>>◌
  abbrev pub ◌>>=◌ : Exec S A → (A → Exec S B) → Exec S B
  ◌>>=◌ m f s = continue f (m s)

  abbrev pub ◌>>◌ : Exec S A → Exec S B → Exec S B
  m >> n = m >>= λ _. n

-- An early `return Err(..)` under a condition.
abbrev pub raise_if : {S : Type 0} → Bool → ErrorContext → ErrorKind → Exec S (Unit {0})
raise_if true c k = raise c k
raise_if false c k = pure tt

module _ {ℓ} {S A : Type ℓ} where
  abbrev pub kind_internal : Result A × S → Result A × S
  kind_internal (ok a, s) = (ok a, s)
  kind_internal (err c k, s) = (err c internal, s)

  -- `map_err(ectx!(ErrorKind::Internal))`
  abbrev pub as_internal : Exec S A → Exec S A
  as_internal m s = kind_internal (m s)

-- A chain that succeeds has come through both of its steps.
pub >>=-eq-ok {ℓ} :
    {S A B : Type ℓ} (m : Exec S A) (f : A → Exec S B) (s : S) {b : B} {s'' : S}
    → (m >>= f) s ≡ (ok b, s'')
    → (a : A) × (s' : S) × (m s ≡ (ok a, s')) × (f a s' ≡ (ok b, s''))
>>=-eq-ok {S = S} {A = A} {B = B} m f s {b} {s''} h = go (m s) refl h
  where
    go :
        (r : Result A × S)
        → m s ≡ r
        → continue f r ≡ (ok b, s'')
        → (a : A) × (s' : S) × (m s ≡ (ok a, s')) × (f a s' ≡ (ok b, s''))
    go (ok a, s') e k = (a, s', e, k)
    go (err c i, s') e k = cc k

-- The same where the first step, on success, keeps the state and gives a value of which `P` holds.
pub >>=-eq-ok_kept {ℓ} :
    {S A B : Type ℓ} {P : A → Type ℓ} (m : Exec S A) (f : A → Exec S B) (s : S) {b : B} {s'' : S}
    → ((a : A) (s' : S) → m s ≡ (ok a, s') → P a × (s' ≡ s))
    → (m >>= f) s ≡ (ok b, s'')
    → (a : A) × P a × (f a s ≡ (ok b, s''))
>>=-eq-ok_kept m f s {b} {s''} k h =
    let (a, s', e, rest) = >>=-eq-ok m f s h in
    let (p, same) = k a s' e in (a, p, subst (λ x. f a x ≡ (ok b, s'')) same rest)

pub ok_or-eq-ok {ℓ} :
    {S A : Type ℓ} (c : ErrorContext) (k : ErrorKind) (o : Option A) (s : S) (a : A) (s' : S)
    → ok_or c k o s ≡ (ok a, s')
    → (o ≡ some a) × (s' ≡ s)
ok_or-eq-ok c k none s a s' h = cc h
ok_or-eq-ok c k (some b) s a s' h = (cc h, cc h)

pub pure-eq-ok {ℓ} :
    {S A : Type ℓ} {a b : A} {s s' : S} → pure a s ≡ (ok b, s') → (a ≡ b) × (s ≡ s')
pure-eq-ok h = (cc h, cc h)

pub raise_if-eq-ok :
    {S : Type 0} (b : Bool) (c : ErrorContext) (k : ErrorKind) (s : S) (u : Unit) (s' : S)
    → raise_if b c k s ≡ (ok u, s')
    → (b ≡ false) × (s' ≡ s)
raise_if-eq-ok true c k s u s' h = cc h
raise_if-eq-ok false c k s u s' h = (refl, cc h)

-- `as_internal` leaves the state of its step.
pub as_internal_state {ℓ} : {S A : Type ℓ} (m : Exec S A) (s : S) → (as_internal m s).1 ≡ (m s).1
as_internal_state {S = S} {A = A} m s = go (m s)
  where
    go : (r : Result A × S) → (kind_internal r).1 ≡ r.1
    go (ok a, s') = refl
    go (err c k, s') = refl

pub raise_if_state :
    {S : Type 0} (b : Bool) (c : ErrorContext) (k : ErrorKind) (s : S) → (raise_if b c k s).1 ≡ s
raise_if_state true c k s = refl
raise_if_state false c k s = refl

-- What both steps of a chain keep, the chain keeps, whether it succeeds or fails.
pub >>=-keeps {ℓ} :
    {S A B : Type ℓ} (P : S → Type ℓ) (m : Exec S A) (f : A → Exec S B) (s : S)
    → P (m s).1
    → ((a : A) (s' : S) → m s ≡ (ok a, s') → P s' → P (f a s').1)
    → P ((m >>= f) s).1
>>=-keeps {S = S} {A = A} P m f s p k = go (m s) refl p
  where
    go : (r : Result A × S) → m s ≡ r → P r.1 → P (continue f r).1
    go (ok a, s') e q = k a s' e q
    go (err c i, s') e q = q

-- A database transaction keeps what holds before it and after its success.
pub execute_transaction_keeps {ℓ} :
    {S A : Type ℓ} (P : S → Type ℓ) (m : Exec S A) (s : S)
    → P s
    → ((a : A) (s' : S) → m s ≡ (ok a, s') → P s')
    → P (execute_transaction m s).1
execute_transaction_keeps {S = S} {A = A} P m s p k = go (m s) refl
  where
    go : (r : Result A × S) → m s ≡ r → P (rollback s r).1
    go (ok a, s') e = k a s' e
    go (err c i, s') e = p

-- What holds of an error in a state where `K` holds, and after each value in such a state, holds of
-- the chain, if the first step leads to such a state.
pub >>=-ends {ℓ} :
    {S A B : Type ℓ} (P : Result B × S → Type ℓ) (K : S → Type ℓ) (m : Exec S A) (f : A → Exec S B)
    (s : S)
    → K (m s).1
    → ((c : ErrorContext) (k : ErrorKind) (s' : S) → K s' → P (err c k, s'))
    → ((a : A) (s' : S) → m s ≡ (ok a, s') → K s' → P (f a s'))
    → P ((m >>= f) s)
>>=-ends {S = S} {A = A} P K m f s h e o = go (m s) refl h
  where
    go : (r : Result A × S) → m s ≡ r → K r.1 → P (continue f r)
    go (ok a, s') q k = o a s' q k
    go (err c i, s') q k = e c i s' k
