-- ===== src/Services/Fetcher/Rules.antt =====
-- Rules for steps after which a blockchain transaction counts as handled (services/rabbit.rs).
use mathlib.Core.Path.{subst, sym}
use transactions.Prelude.{
  Bool, true, ◌≡◌, refl, ◌⊎◌, inl, inr, List, [], ◌∷◌, ◌++◌, arith, nat_eq, nat_beq_iff, any,
  Bool-cases,
}
use transactions.Exec.{Exec, Result, ok, err, pure, ◌>>=◌, ◌>>◌, >>=-ends}
use transactions.Models.{currency_eq}
use transactions.Models.Records.{BlockchainTransaction, seen_of}
use transactions.Repos.{Db}
use transactions.Repos.Seen.{create_seen, is_seen_as}
use transactions.Services.Fetcher.Settling.{Handled}

-- The transaction was handled.
abbrev pub IsSeen : BlockchainTransaction → Db → Type 0
IsSeen t db = any (is_seen_as t.hash t.currency) db.seen_hashes ≡ true

-- A success has handled the transaction, or has done nothing.
abbrev pub Settled : BlockchainTransaction → Db → Result Handled × Db → Type 0
Settled t db (ok out, db') = IsSeen t db' ⊎ ((out ≡ ([], [])) × (db' ≡ db))
Settled t db (err c k, db') = Unit

pub any-append {ℓ} :
    {A : Type ℓ} (p : A → Bool) (xs : List A) (x : A) → p x ≡ true → any p (xs ++ x ∷ []) ≡ true
any-append p [] x h = rw h
any-append p (y ∷ ys) x h = ground (arith, any-append p ys x)

module _ (t : BlockchainTransaction) (db : Db) {A : Type 0} (m : Exec Db A)
    (f : A → Exec Db Handled) where
  -- A step whose error needs no care.
  pub after_any :
      (d : Db) → ((a : A) (d' : Db) → Settled t db (f a d')) → Settled t db ((m >>= f) d)
  after_any d k =
      >>=-ends (Settled t db) (λ d. Unit {0}) m f d tt (λ c k d u. tt) (λ a d' e u. k a d')

  -- A step that leaves the database as it is.
  pub after_same : (m db).1 ≡ db → ((a : A) → Settled t db (f a db)) → Settled t db ((m >>= f) db)
  after_same e k =
      >>=-ends (Settled t db) (λ d. d ≡ db) m f db e (λ c k d u. tt)
        (λ a d' q u. subst (λ d. Settled t db (f a d)) (sym u) (k a))

  -- A step that keeps the hashes.
  pub after_seen :
      (d : Db)
      → IsSeen t (m d).1
      → ((a : A) (d' : Db) → IsSeen t d' → Settled t db (f a d'))
      → Settled t db ((m >>= f) d)
  after_seen d s k =
      >>=-ends (Settled t db) (IsSeen t) m f d s (λ c k d u. tt) (λ a d' e u. k a d' u)

-- A success has handled the transaction.
abbrev pub SeenAfter {ℓ} : {A : Type ℓ} → BlockchainTransaction → Result A × Db → Type 0
SeenAfter t (ok a, db) = IsSeen t db
SeenAfter t (err c k, db) = Unit

-- The transaction stays handled, also after an error.
abbrev pub StaysSeen {ℓ} : {A : Type ℓ} → BlockchainTransaction → Result A × Db → Type 0
StaysSeen t (ok a, db) = IsSeen t db
StaysSeen t (err c k, db) = IsSeen t db

pub stays :
    {A : Type 0} (t : BlockchainTransaction) (r : Result A × Db) → StaysSeen t r → IsSeen t r.1
stays t (ok a, d) h = h
stays t (err c k, d) h = h

pub elim_stays :
    {A : Type 0} (t : BlockchainTransaction) (r : Result A × Db) → IsSeen t r.1 → StaysSeen t r
elim_stays t (ok a, d) h = h
elim_stays t (err c k, d) h = h

pub StaysSeen-SeenAfter :
    {A : Type 0} (t : BlockchainTransaction) (r : Result A × Db) → StaysSeen t r → SeenAfter t r
StaysSeen-SeenAfter t (ok a, d) h = h
StaysSeen-SeenAfter t (err c k, d) h = tt

pub seen_kept :
    (t : BlockchainTransaction) {A B : Type 0} (m : Exec Db A) (f : A → Exec Db B) (d : Db)
    → IsSeen t (m d).1
    → ((a : A) (d' : Db) → IsSeen t d' → StaysSeen t (f a d'))
    → StaysSeen t ((m >>= f) d)
seen_kept t m f d h k =
    >>=-ends (StaysSeen t) (IsSeen t) m f d h (λ c i d u. u) (λ a d' e u. k a d' u)

pub seen_any :
    (t : BlockchainTransaction) {A B : Type 0} (m : Exec Db A) (f : A → Exec Db B) (d : Db)
    → ((a : A) (d' : Db) → SeenAfter t (f a d'))
    → SeenAfter t ((m >>= f) d)
seen_any t m f d k =
    >>=-ends (SeenAfter t) (λ d. Unit {0}) m f d tt (λ c k d u. tt) (λ a d' e u. k a d')

pub then_seen :
    (t : BlockchainTransaction) {A B : Type 0} (m : Exec Db A) (f : A → Exec Db B) (d : Db)
    → SeenAfter t (m d)
    → ((a : A) (d' : Db) → IsSeen t d' → SeenAfter t (f a d'))
    → SeenAfter t ((m >>= f) d)
then_seen t {A} m f d h k = go (m d) refl h
  where
    go : (r : Result A × Db) → m d ≡ r → SeenAfter t r → SeenAfter t (((λ x. r) >>= f) d)
    go (ok a, d') e s = k a d' s
    go (err c i, d') e s = tt

-- The hash is written, and nothing after that fails.
pub SeenAfter-pure :
    {A : Type 0} (t : BlockchainTransaction) (a : A) (d : Db)
    → SeenAfter t ((create_seen (seen_of t) >> pure a) d)
unfolding create_seen is_seen_as seen_of
SeenAfter-pure t a d = elim (Bool-cases (any (is_seen_as t.hash t.currency) d.seen_hashes)) [
  | inl e ↦ rw e tt
  | inr e ↦ rw e (
      any-append (is_seen_as t.hash t.currency) d.seen_hashes (seen_of t)
        (ground (arith, nat_beq_iff t.hash t.hash, currency_eq.eq_iff t.currency t.currency)))
]

pub SeenAfter-Settled :
    (t : BlockchainTransaction) (db : Db) (r : Result Handled × Db) → SeenAfter t r → Settled t db r
SeenAfter-Settled t db (ok a, d) h = inl h
SeenAfter-Settled t db (err c k, d) h = tt
