-- ===== src/Nursery/Transactions/Failures.antt =====
-- What the callbacks of the outputs keep, the transaction keeps; how its errors reach the swaps.
use lightz_client.Base.{ℕ, String, Option, none, some, List, [], ◌∷◌, All}
use lightz_client.Lightz.Types.{Currency, Error, Result, ok, err}
use lightz_client.Onchain.Chain.{OutputResult, Transaction, find_output}
use lightz_client.Nursery.Handler.{Handler}
use lightz_client.Nursery.Handler.Rules.{
  Obeys, Obeys-call, Obeys-on_result, Obeys-on_error, Obeys-branch, Obeys-or_crash, Obeys-bind,
  Obeys-pure,
}
use lightz_client.Nursery.Transactions.{
  Output, Env, Results, read_result, place, locate, keep_valid, report, populate, populate_outputs,
  output_address, handle_err, settle, finish, fail_all, broadcast_outputs, build,
  create_transaction, set_error_of,
}

-- Both callbacks of an output keep `P`.
pub record Keeps {W : Type 0} (P : W → Type 0) (o : Output W) : Type 0 where
  pub on_transaction : (tx : String) (fee : ℕ) (w : W) → P w → P (o.set_transaction tx fee w).1
  pub on_error : (e : Error) (w : W) → P w → P (o.set_error e w)

module _ {W : Type 0} (env : Env) (P : W → Type 0) where
  abbrev PlacedKeeps : Result (Output W) → Type 0
  PlacedKeeps (err e) = Unit
  PlacedKeeps (ok o) = Keeps P o

  place-Keeps :
      (o : Output W) (address : String) (found : Result OutputResult)
      → Keeps P o
      → PlacedKeeps (place env o address found)
  place-Keeps o address (err e) k = tt
  place-Keeps o address (ok found) k = record {
    on_transaction = k.on_transaction;
    on_error = k.on_error;
  }

  locate-Keeps : (o : Output W) (r : Result String) → Keeps P o → PlacedKeeps (locate env o r)
  locate-Keeps o (err e) k = tt
  locate-Keeps o (ok address) k =
      place-Keeps o address (find_output env.codec env.onchain o.output_args) k

  report-keeps :
      (o : Output W) (r : Result (Output W)) (w : W) → Keeps P o → P w → P (report env o r w)
  report-keeps o (err e) w k h = k.on_error e w h
  report-keeps o (ok o') w k h = h

  keep_valid-Keeps :
      (o : Output W) (r : Result (Output W)) (v : List (Output W) × W)
      → PlacedKeeps r
      → All (Keeps P) v.0 × P v.1
      → All (Keeps P) (keep_valid env o r v).0 × P (keep_valid env o r v).1
  keep_valid-Keeps o (err e) v k h = h
  keep_valid-Keeps o (ok o') v k h = ((k, h.0), h.1)

  populate-Keeps :
      (cache : List (ℕ × String)) (outputs : List (Output W)) (w : W)
      → All (Keeps P) outputs
      → P w
      → All (Keeps P) (populate env cache outputs w).0 × P (populate env cache outputs w).1
  unfolding populate
  populate-Keeps cache [] w ks h = (tt, h)
  populate-Keeps cache (o ∷ os) w (k, ks) h =
      let (address, cache') = output_address env.wallets o.details.address o.wallet_id cache in
      let located = locate env o address in
      keep_valid-Keeps o located (populate env cache' os (report env o located w))
        (locate-Keeps o address k)
        (populate-Keeps cache' os (report env o located w) ks (report-keeps o located w k h))

  set_error_of-keeps :
      (o : Output W) (e : Option Error) (w : W) → Keeps P o → P w → P (set_error_of env o e w)
  set_error_of-keeps o none w k h = h
  set_error_of-keeps o (some e) w k h = k.on_error e w h

  -- The callbacks keep `P`, and nothing returns early.
  abbrev Steady : {A : Type 0} → Handler W A → Type 0
  Steady m = Obeys P (λ w. ⊥) m

  after :
      {A : Type 0} (g : W → W) (m : Handler W A)
      → ((w : W) → P w → P (g w))
      → Steady m
      → Steady (λ w. m (g w))
  after g m kg km = record {
    keeps = λ w h. km.keeps (g w) (kg w h);
    stops = λ w h. km.stops (g w) (kg w h);
  }

  handle_err-Steady :
      (e : Option Error) (results : Option Results) (outputs : List (Output W))
      → All (Keeps P) outputs
      → Steady (handle_err env e results outputs)
  unfolding handle_err
  handle_err-Steady e results [] ks = Obeys-pure tt
  handle_err-Steady e results (o ∷ os) (k, ks) = Obeys-or_crash _ _ (λ results'.
      after (set_error_of env o (read_result o.details.swap_id results').error)
        (handle_err env e results' os)
        (λ w. set_error_of-keeps o (read_result o.details.swap_id results').error w k)
        (handle_err-Steady e results' os ks))

  settle-Steady :
      (id hex : String) (outputs : List (Output W)) (results : Option Results)
      → All (Keeps P) outputs
      → Steady (settle env id hex outputs results)
  unfolding settle
  settle-Steady id hex [] results ks = Obeys-pure results
  settle-Steady id hex (o ∷ os) results (k, ks) =
      Obeys-branch _ _ _ (λ e. settle-Steady id hex os results ks)
        (λ e.
          Obeys-bind _ _
            (Obeys-call _ (k.on_transaction id (read_result o.details.swap_id results).fee))
            (λ failed.
              Obeys-on_error _ _ _ (λ e. settle-Steady id hex os results ks)
                (λ e.
                  Obeys-on_error _ _ _
                    (λ e'. Obeys-or_crash _ _ (λ results'. settle-Steady id hex os results' ks))
                    (λ e'. settle-Steady id hex os results ks))))

  fail_all-Steady :
      (id : String) (e : Error) (results : Option Results) (outputs : List (Output W))
      → All (Keeps P) outputs
      → Steady (fail_all env id e results outputs)
  unfolding fail_all
  fail_all-Steady id e results outputs ks =
      Obeys-bind _ _ (handle_err-Steady (some e) results outputs ks) (λ x. Obeys-pure (id, some e))

  finish-Steady :
      (id hex : String) (outputs : List (Output W)) (results : Option Results)
      → All (Keeps P) outputs
      → Steady (finish env id hex outputs results)
  unfolding finish
  finish-Steady id hex outputs results ks =
      Obeys-bind _ _ (settle-Steady id hex outputs results ks) (λ results'.
        Obeys-bind _ _ (handle_err-Steady none results' outputs ks) (λ x. Obeys-pure (id, none)))

  broadcast_outputs-Steady :
      (tx : Transaction) (outputs : List (Output W)) (results : Option Results)
      → All (Keeps P) outputs
      → Steady (broadcast_outputs env tx outputs results)
  unfolding broadcast_outputs
  broadcast_outputs-Steady tx outputs results ks =
      Obeys-on_result _ _ _ (λ e. fail_all-Steady "" e results outputs ks)
        (λ id e.
          Obeys-on_result _ _ _ (λ e'. fail_all-Steady id e' results outputs ks)
            (λ hex e'. finish-Steady id hex outputs results ks))

  build-Steady :
      (currency : Currency) (outputs : List (Output W))
      → All (Keeps P) outputs
      → Steady (build env currency outputs)
  unfolding build
  build-Steady currency [] ks = Obeys-pure _
  build-Steady currency (o ∷ os) ks =
      Obeys-on_result _ _ _ (λ e. fail_all-Steady "" e (some []) (o ∷ os) ks)
        (λ rate e.
          Obeys-on_result _ _ _ (λ e'. fail_all-Steady "" e' _ (o ∷ os) ks)
            (λ tx e'. broadcast_outputs-Steady tx (o ∷ os) _ ks))

  -- What both callbacks of every output keep, `createTransaction` keeps.
  pub create_transaction-Steady :
      (currency : Currency) (outputs : List (Output W))
      → All (Keeps P) outputs
      → Steady (create_transaction env currency outputs)
  unfolding create_transaction populate_outputs
  create_transaction-Steady currency outputs ks = record {
    keeps = λ w h.
        let (valid, w') = populate env [] outputs w in
        let (ks', h') = populate-Keeps [] outputs w ks h in
        (build-Steady currency valid ks').keeps w' h';
    stops = λ w h.
        let (valid, w') = populate env [] outputs w in
        let (ks', h') = populate-Keeps [] outputs w ks h in
        (build-Steady currency valid ks').stops w' h';
  }
