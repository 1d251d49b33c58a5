-- ===== src/Nursery/Transactions/Broadcast.antt =====
-- internal/nursery/nursery.go, `createTransaction`: what its result says about the broadcast.
use lightz_client.Base.{String, ◌≡◌, refl, subst, Option, none, some, List, [], ◌∷◌, map}
use lightz_client.Float.{Float64}
use lightz_client.Lightz.Types.{Currency, Error, Result, ok, err}
use lightz_client.Onchain.Chain.{Transaction, estimate_fee, broadcast_transaction}
use lightz_client.Nursery.Handler.{
  Out, value, done, panic, Handler, pure, crash, on_result, or_crash, continue, ◌>>=◌,
}
use lightz_client.Nursery.Transactions.{
  OutputDetails, Output, Results, Env, set_err, populate_outputs, handle_err, fail_all, finish,
  broadcast_outputs, build, create_transaction,
}

abbrev Sat : {A : Type 0} → (A → Type 0) → Out A → Type 0
Sat Q (value a) = Q a
Sat Q _ = Unit

-- What the values of the handler satisfy.
record Yields {W A : Type 0} (Q : A → Type 0) (m : Handler W A) : Type 0 where
  yields : (w : W) → Sat Q (m w).0

module _ {W A : Type 0} {Q : A → Type 0} where
  Yields-pure : (a : A) → Q a → Yields Q (pure {W = W} a)
  unfolding pure
  Yields-pure a h = record { yields = λ w. h }

module _ {W A B : Type 0} {Q : B → Type 0} where
  continue-Sat :
      (r : Out A) (f : A → Handler W B) (w : W)
      → ((a : A) → Yields Q (f a))
      → Sat Q (continue r f w).0
  continue-Sat (value a) f w kf = (kf a).yields w
  continue-Sat done f w kf = tt
  continue-Sat panic f w kf = tt

  Yields-bind :
      (m : Handler W A) (f : A → Handler W B) → ((a : A) → Yields Q (f a)) → Yields Q (m >>= f)
  unfolding ◌>>=◌
  Yields-bind m f kf = record { yields = λ w. continue-Sat (m w).0 f (m w).1 kf }

  Yields-on_result :
      (r : Result A) (f : Error → Handler W B) (g : A → Handler W B)
      → ((e : Error) → Yields Q (f e))
      → ((a : A) → r ≡ ok a → Yields Q (g a))
      → Yields Q (on_result r f g)
  unfolding on_result
  Yields-on_result (ok a) f g kf kg = kg a refl
  Yields-on_result (err e) f g kf kg = kf e

module _ (env : Env) where
  -- Without an error, the id is that of a transaction with `T` that was broadcast.
  abbrev IsBroadcast : (Transaction → Type 0) → String × Option Error → Type 0
  IsBroadcast T (id, some e) = Unit
  IsBroadcast T (id, none) =
      (tx : Transaction) × T tx × (broadcast_transaction env.codec env.onchain tx ≡ ok id)

  -- The transaction is the one that was constructed for the outputs at the chain's fee rate.
  abbrev pub IsBuilt : Currency → List OutputDetails → Transaction → Type 0
  IsBuilt currency details tx =
      (rate : Float64) × (estimate_fee env.arith env.onchain currency ≡ ok rate)
      × ((env.construct currency details rate).1 ≡ ok tx)

module _ {W : Type 0} (env : Env) where
  fail_all-IsBroadcast :
      (T : Transaction → Type 0) (id : String) (e : Error) (results : Option Results)
      (outputs : List (Output W))
      → Yields (IsBroadcast env T) (fail_all env id e results outputs)
  unfolding fail_all
  fail_all-IsBroadcast T id e results outputs = Yields-bind _ _ (λ x. Yields-pure _ tt)

  broadcast_outputs-IsBroadcast :
      (T : Transaction → Type 0) (tx : Transaction) (outputs : List (Output W))
      (results : Option Results)
      → T tx
      → Yields (IsBroadcast env T) (broadcast_outputs env tx outputs results)
  unfolding broadcast_outputs finish
  broadcast_outputs-IsBroadcast T tx outputs results t =
      Yields-on_result _ _ _ (λ e. fail_all-IsBroadcast T "" e results outputs)
        (λ id sent.
          Yields-on_result _ _ _ (λ e. fail_all-IsBroadcast T id e results outputs)
            (λ hex e.
              Yields-bind _ _ (λ results'. Yields-bind _ _ (λ x. Yields-pure _ (tx, t, sent)))))

  abbrev details_of : List (Output W) → List OutputDetails
  details_of = map (λ (x : Output W). x.details)

  build-IsBroadcast :
      (currency : Currency) (outputs : List (Output W))
      → Yields
          (IsBroadcast env (IsBuilt env currency (details_of outputs)))
          (build env currency outputs)
  unfolding build
  build-IsBroadcast currency [] = Yields-pure _ tt
  build-IsBroadcast currency (o ∷ os) =
      Yields-on_result _ _ _ (λ e. fail_all-IsBroadcast _ "" e (some []) (o ∷ os))
        (λ rate estimated.
          Yields-on_result _ _ _ (λ e. fail_all-IsBroadcast _ "" e _ (o ∷ os))
            (λ tx built. broadcast_outputs-IsBroadcast _ tx (o ∷ os) _ (rate, estimated, built)))

  -- Where the creation of a transaction returns an id and no error, it broadcast, with that id, a
  -- transaction that was constructed for the valid outputs at the chain's fee rate.
  pub create_transaction-IsBroadcast :
      (currency : Currency) (outputs : List (Output W)) (w : W) (id : String)
      → (create_transaction env currency outputs w).0 ≡ value (id, none)
      → (tx : Transaction) × IsBuilt env currency (details_of (populate_outputs env outputs w).0) tx
        × (broadcast_transaction env.codec env.onchain tx ≡ ok id)
  unfolding create_transaction
  create_transaction-IsBroadcast currency outputs w id e =
      let (valid, w') = populate_outputs env outputs w in
      subst (Sat (IsBroadcast env (IsBuilt env currency (details_of valid)))) e
        ((build-IsBroadcast currency valid).yields w')

  -- Where the client's `ConstructTransaction` fails without results, as the source's does, at least one
  -- output is valid and a fee rate is known, the transaction panics.
  pub create_transaction-panics :
      (currency : Currency) (outputs : List (Output W)) (w : W) (o : Output W)
      (os : List (Output W)) (rate : Float64) (e : Error)
      → (populate_outputs env outputs w).0 ≡ o ∷ os
      → estimate_fee env.arith env.onchain currency ≡ ok rate
      → env.construct currency (map (λ (x : Output W). x.details) (o ∷ os)) rate ≡ (none, err e)
      → create_transaction env currency outputs w ≡ (panic, (populate_outputs env outputs w).1)
  unfolding create_transaction build fail_all handle_err set_err on_result or_crash crash ◌>>=◌
  create_transaction-panics currency outputs w o os rate e valid estimated constructed =
      rw (valid, estimated, constructed)
