-- ===== src/Exec/Reading.antt =====
-- Operations that only read: they leave the state alone, whether they succeed or fail.
use mathlib.Core.Path.{subst, sym}
use transactions.Prelude.{◌≡◌, refl, Option, none, some}
use transactions.Exec.{
  err, Exec, Result, ok_or, as_internal, as_internal_state, ◌>>=◌, >>=-keeps, ErrorContext,
  ErrorKind, ok, execute_transaction, rollback, continue, execute_transaction_keeps,
}

abbrev pub ReadsOnly {ℓ} : {S A : Type ℓ} → Exec S A → Type ℓ
ReadsOnly {S = S} m = (s : S) → (m s).1 ≡ s

pub ok_or-ReadsOnly {ℓ} :
    {S A : Type ℓ} (c : ErrorContext) (k : ErrorKind) (o : Option A)
    → ReadsOnly {S = S} (ok_or c k o)
ok_or-ReadsOnly c k none s = refl
ok_or-ReadsOnly c k (some a) s = refl

pub >>=-ReadsOnly {ℓ} :
    {S A B : Type ℓ} (m : Exec S A) (f : A → Exec S B)
    → ReadsOnly m
    → ((a : A) → ReadsOnly (f a))
    → ReadsOnly (m >>= f)
>>=-ReadsOnly m f r k s = >>=-keeps (λ d. d ≡ s) m f s (r s) (λ a d e h. cc (k a d, h))

pub as_internal-ReadsOnly {ℓ} :
    {S A : Type ℓ} (m : Exec S A) → ReadsOnly m → ReadsOnly (as_internal m)
as_internal-ReadsOnly m r s = cc (as_internal_state m s, r s)

pub execute_transaction-ReadsOnly {ℓ} :
    {S A : Type ℓ} (m : Exec S A) → ReadsOnly m → ReadsOnly (execute_transaction m)
execute_transaction-ReadsOnly m r s =
    execute_transaction_keeps (λ d. d ≡ s) m s refl (λ a d e. cc (r s, e))

pub execute_transaction-eq-ok {ℓ} :
    {S A : Type ℓ} (m : Exec S A) (s : S) {a : A} {s' : S}
    → execute_transaction m s ≡ (ok a, s')
    → m s ≡ (ok a, s')
execute_transaction-eq-ok {S = S} {A = A} m s {a} {s'} h = go (m s) h
  where
    go : (r : Result A × S) → rollback s r ≡ (ok a, s') → r ≡ (ok a, s')
    go (ok b, d) e = e
    go (err c k, d) e = cc e

-- After a step that only reads, a chain keeps what its second step keeps from the same state.
pub >>=-keeps_read {ℓ} :
    {S A B : Type ℓ} (P : S → Type ℓ) (m : Exec S A) (f : A → Exec S B) (s : S)
    → ReadsOnly m
    → P s
    → ((a : A) → m s ≡ (ok a, s) → P (f a s).1)
    → P ((m >>= f) s).1
>>=-keeps_read {S = S} {A = A} P m f s r p k = go (m s) refl
  where
    go : (x : Result A × S) → m s ≡ x → P (continue f x).1
    go (ok a, d) e =
        let same : d ≡ s = cc (r s, e) in subst (λ x. P (f a x).1) (sym same) (k a (cc (e, same)))
    go (err c i, d) e = let same : d ≡ s = cc (r s, e) in subst P (sym same) p
