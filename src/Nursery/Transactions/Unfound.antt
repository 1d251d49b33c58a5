-- ===== src/Nursery/Transactions/Unfound.antt =====
-- A transaction for one output that can not be found: only its error callback runs.
use lightz_client.Base.{String, ◌≡◌, refl, [], ◌∷◌}
use lightz_client.Lightz.Types.{Currency, Error, Result, ok, err}
use lightz_client.Onchain.Chain.{find_output}
use lightz_client.Nursery.Handler.{pure}
use lightz_client.Nursery.Handler.Rules.{Obeys}
use lightz_client.Nursery.Transactions.{
  Output, Env, locate, output_address, populate, populate_outputs, build, create_transaction,
}

module _ {W : Type 0} (env : Env) (o : Output W) {e : Error}
    (unfound : find_output env.codec env.onchain o.output_args ≡ err e) where
  locate-unfound : (r : Result String) → (x : Error) × (locate env o r ≡ err x)
  locate-unfound (err x) = (x, refl)
  locate-unfound (ok address) = (e, rw unfound)

  pub create_transaction-unfound :
      {P : W → Type 0} (currency : Currency)
      → ((x : Error) (w : W) → P w → P (o.set_error x w))
      → Obeys P (λ w. ⊥) (create_transaction env currency (o ∷ []))
  unfolding create_transaction populate_outputs populate build pure
  create_transaction-unfound currency k =
      let (x, lost) =
        locate-unfound (output_address env.wallets o.details.address o.wallet_id []).0 in
      record { keeps = λ w h. rw lost (k x w h); stops = λ w h. rw lost (λ d. cc) }
