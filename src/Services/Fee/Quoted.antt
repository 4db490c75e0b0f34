-- ===== src/Services/Fee/Quoted.antt =====
-- services/fee.rs: which fees are quoted.
use transactions.Models.Sending.{Role}
use transactions.Exec.Reading.{ReadsOnly, >>=-ReadsOnly}
use transactions.Models.Records.{Account, Time}
use transactions.Services.Fee.{
  FeesClient, GetFees, blockchain_fees, Fee, convert_fees, Fees, no_fee, rate_input, with_upside,
  at_rate, fees_for, get_fees, has_accounts,
}
use transactions.Services.Clients.{
  answered, failed, Clients, answered, Reply, ask, from_client_kind, reply_result,
  from_exchange_kind,
}
use transactions.Repos.{Db}
use transactions.Float.{Floats}
use mathlib.Core.Path.{subst}
use transactions.Prelude.{
  Bool, true, false, ◌≡◌, ◌≢◌, ◌⊎◌, refl, inl, inr, List, [], ◌∷◌, arith, ◌==◌, filter, all,
  Bool-cases, nat_eq, ap,
}
use transactions.Exec.{
  kind_internal, ok, err, ◌>>=◌, ErrorKind, Exec, as_internal, Result, as_internal_state, >>=-eq-ok,
  pure-eq-ok,
}
use transactions.Models.{btc, eth, stq, BlockchainAddress, Currency, currency_eq}
use transactions.Repos.Accounts

-- The accounts of an address.
abbrev pub accounts_at : BlockchainAddress → Db → List Account
accounts_at address db = filter (λ (a : Account). a.address == address) db.accounts

module _ (f : Floats) (clients : Clients f) (fees_client : FeesClient) (fee_upside : f.F64) where
  -- What the fees client answers for a currency: for STQ, in ETH at the rate of the exchange.
  pub data IsAsked (db : Db) : Currency → List Fee → Type 0 where
    bitcoin :
        (fees : List Fee) → fees_client.bitcoin_fees db.now ≡ answered fees → IsAsked db btc fees
    ethereum : (fees : List Fee) → fees_client.eth_fees db.now ≡ answered fees → IsAsked db eth fees
    token :
        (fees : List Fee) (rate : f.F64)
        → fees_client.stq_fees db.now ≡ answered fees
        → clients.rate
            (rate_input f clients fees_client fee_upside db.now fees stq eth)
            Role.system
            db.now
          ≡ answered rate
        → IsAsked db stq (at_rate f clients fees_client fee_upside rate fees)

  -- An address of ours costs nothing, if its accounts are in the currency asked for; for any other
  -- address the fees are the blockchain's, each raised.
  abbrev pub Quoted : GetFees → Db → Result Fees × Db → Type 0
  Quoted input db (ok quote, db') =
      (db' ≡ db)
      × (quote.currency ≡ input.currency)
      × (((accounts_at input.account_address db ≢ [])
            × (all (λ (a : Account). a.currency == input.currency)
                  (accounts_at input.account_address db)
                ≡ true)
            × (quote.fees ≡ no_fee ∷ []))
          ⊎ ((asked : List Fee) × (accounts_at input.account_address db ≡ [])
              × IsAsked db input.currency asked
              × (quote.fees ≡ with_upside f clients fees_client fee_upside asked)))
  Quoted input db (err c k, db') = db' ≡ db

  ask_lem :
      {K A : Type 0} (kind : K → ErrorKind) (call : Time → Reply K A) (db : Db) (a : A) (db' : Db)
      → ask kind call db ≡ (ok a, db')
      → (call db.now ≡ answered a) × (db' ≡ db)
  ask_lem {K} {A} kind call db a db' h = go (call db.now) refl h
    where
      go :
          (r : Reply K A)
          → call db.now ≡ r
          → ◌≡◌ {A = Result A × Db} (reply_result kind r, db) (ok a, db')
          → (call db.now ≡ answered a) × (db' ≡ db)
      go (answered b) e k = (cc (e, k), cc k)
      go (failed x) e k = cc k

  as_internal_lem :
      {A : Type 0} (m : Exec Db A) (db : Db) (a : A) (db' : Db)
      → as_internal m db ≡ (ok a, db')
      → m db ≡ (ok a, db')
  as_internal_lem {A} m db a db' h = go (m db) h
    where
      go : (r : Result A × Db) → kind_internal r ≡ (ok a, db') → r ≡ (ok a, db')
      go (ok b, d) e = e
      go (err c k, d) e = cc e

  blockchain_fees-ReadsOnly :
      (currency : Currency) → ReadsOnly (blockchain_fees f clients fees_client fee_upside currency)
  unfolding blockchain_fees convert_fees
  blockchain_fees-ReadsOnly btc =
      λ d. as_internal_state (ask from_client_kind fees_client.bitcoin_fees) d
  blockchain_fees-ReadsOnly eth =
      λ d. as_internal_state (ask from_client_kind fees_client.eth_fees) d
  blockchain_fees-ReadsOnly stq =
      >>=-ReadsOnly (as_internal (ask from_client_kind fees_client.stq_fees)) _
        (λ d. as_internal_state (ask from_client_kind fees_client.stq_fees) d)
        (λ fees d. ground arith)

  blockchain_fees-IsAsked :
      (currency : Currency) (db : Db) (fees : List Fee) (db' : Db)
      → blockchain_fees f clients fees_client fee_upside currency db ≡ (ok fees, db')
      → IsAsked db currency fees
  unfolding blockchain_fees convert_fees
  blockchain_fees-IsAsked btc db fees db' h =
      let ask_btc = ask from_client_kind fees_client.bitcoin_fees in
      bitcoin fees
        (ask_lem from_client_kind fees_client.bitcoin_fees db fees db'
          (as_internal_lem ask_btc db fees db' h)).0
  blockchain_fees-IsAsked eth db fees db' h =
      let ask_eth = ask from_client_kind fees_client.eth_fees in
      ethereum fees
        (ask_lem from_client_kind fees_client.eth_fees db fees db'
          (as_internal_lem ask_eth db fees db' h)).0
  blockchain_fees-IsAsked stq db fees db' h =
      let ask_stq = ask from_client_kind fees_client.stq_fees in
      let (base, d, e, h1) = >>=-eq-ok (as_internal ask_stq) _ db h in
      let (a, same) =
        ask_lem from_client_kind fees_client.stq_fees db base d
          (as_internal_lem ask_stq db base d e) in
      let input = rate_input f clients fees_client fee_upside d.now base stq eth in
      let (rate, d1, e1, h2) =
        >>=-eq-ok (ask from_exchange_kind (clients.rate input Role.system)) _ d h1 in
      let (b, same1) = ask_lem from_exchange_kind (clients.rate input Role.system) d rate d1 e1 in
      subst (IsAsked db stq) (pure-eq-ok h2).0 (
        token base rate a (
          subst
            (λ (x : Db).
              clients.rate (rate_input f clients fees_client fee_upside x.now base stq eth)
                Role.system x.now
              ≡ answered rate)
            same b))

  fees_for-Quoted :
      (input : GetFees) (db : Db) (own : Bool)
      → ((own ≡ true)
          × (accounts_at input.account_address db ≢ [])
          × (all
                (λ (a : Account). a.currency == input.currency)
                (accounts_at input.account_address db)
              ≡ true))
        ⊎ ((own ≡ false) × (accounts_at input.account_address db ≡ []))
      → (r : Result Fees × Db) → fees_for f clients fees_client fee_upside input.currency own db ≡ r
      → Quoted input db r
  unfolding fees_for
  fees_for-Quoted input db true (inl (o, n, a)) (ok q, db') h =
      let (k, same) = pure-eq-ok h in
      (cc same, cc (ap (λ (x : Fees). x.currency) k), inl (n, a, cc (ap (λ (x : Fees). x.fees) k)))
  fees_for-Quoted input db true (inl (o, n, a)) (err c k, db') h = cc h
  fees_for-Quoted input db true (inr (o, n)) r h = cc o
  fees_for-Quoted input db false (inl (o, n, a)) r h = cc o
  fees_for-Quoted input db false (inr (o, n)) (ok q, db') h =
      let asks = blockchain_fees f clients fees_client fee_upside input.currency in
      let (asked, d, e, h1) = >>=-eq-ok asks _ db h in
      let (k, same) = pure-eq-ok h1 in
      let kept : d ≡ db = cc (blockchain_fees-ReadsOnly input.currency db, e) in
      (
        cc (same, kept),
        cc (ap (λ (x : Fees). x.currency) k),
        inr (
          asked,
          n,
          blockchain_fees-IsAsked input.currency db asked d e,
          cc (ap (λ (x : Fees). x.fees) k),
        ),
      )
  fees_for-Quoted input db false (inr (o, n)) (err c k, db') h =
      let asks = blockchain_fees f clients fees_client fee_upside input.currency in
      let kept : (fees_for f clients fees_client fee_upside input.currency false db).1 ≡ db =
        >>=-ReadsOnly asks _ (blockchain_fees-ReadsOnly input.currency) (λ fees d. refl) db in
      cc (kept, h)

  -- When fees are quoted, they are in the currency asked for: a single fee of 0 for an address of
  -- ours, all of whose accounts are in that currency, and for an address that is not ours the fees of
  -- the blockchain, for STQ turned from ETH at the rate of the exchange, each times the upside. The
  -- database is never changed.
  pub get_fees-Quoted :
      (input : GetFees) (db : Db)
      → Quoted input db (get_fees f clients fees_client fee_upside input db)
  unfolding get_fees has_accounts Accounts.filter_by_address
  get_fees-Quoted input db = by_accounts (accounts_at input.account_address db) refl
    where
      quote : List Account → Exec Db Fees
      quote accs =
          has_accounts input.currency accs
          >>= fees_for f clients fees_client fee_upside input.currency

      by_accounts :
          (accs : List Account)
          → accounts_at input.account_address db ≡ accs
          → Quoted input db (quote accs db)
      by_accounts [] e = fees_for-Quoted input db false (inr (refl, e)) _ refl
      by_accounts (acc ∷ accs) e =
          elim (Bool-cases (all (λ (a : Account). a.currency == input.currency) (acc ∷ accs))) [
            | inl k ↦
                rw k
                  (fees_for-Quoted input db true (inl (refl, (λ n. cc (n, e)), cc (e, k))) _ refl)
            | inr k ↦ rw k refl
          ]
