-- ===== src/Rpc/Reverse/Vetting/Outcomes.antt =====
-- Whatever the server answers to a request for a reverse swap: what is stored, and what the nursery gets.
use lightz_client.Base.{String, Bool, ◌≡◌, refl, true, false, Option, ◌∷◌, arith, List}
use lightz_client.Lightz.Types.{Pair, Result, ok, err}
use lightz_client.Database.ReverseSwap.{ReverseSwap, Held}
use lightz_client.Rpc.Request.{
  Request, Answer, answer, fails, panics, follow, Leads, bind-Leads, require-Leads, give-Leads,
  need-Leads, ◌>>=◌, pure, give, require, need,
}
use lightz_client.Rpc.Reverse.{
  Proposal, Destination, deserialize, SerializedTree, PairInfo, CreateReverseSwapRequest, Response,
  ServerEnv, Server,
}
use lightz_client.Rpc.Reverse.Steps.{
  new_keys, accept_pair, get_reverse_pair, choose_destination, send_proposal,
}
use lightz_client.Rpc.Reverse.Creation.{
  Draft, vet, agree, respond, conclude, waits, create_reverse_swap,
}
use lightz_client.Rpc.Reverse.Vetting.{IsAnswer, IsUntouched, Outcome, untouched, vet-Leads}

-- What follows leaves the state as it is.
then_quiet :
    {A B : Type 0} {P : Server → Type 0} (Q : Server → Type 0) (m : Request Server A)
    (f : A → Request Server B)
    → Leads P Q m
    → ((a : A) → Leads Q Q (f a))
    → Leads P Q (m >>= f)
unfolding ◌>>=◌
then_quiet {A} {B} {P} Q m f k kf w p = after (m w).0 (m w).1 (k w p)
  where
    after : (r : Answer A) (w : Server) → Q w → Q (follow r f w).1
    after (answer a) w q = kf a w q
    after (fails e) w q = q
    after panics w q = q

pure-keeps : {A : Type 0} (Q : Server → Type 0) (a : A) → Leads Q Q (pure a)
unfolding pure
pure-keeps Q a w q = q

give-keeps : {A : Type 0} (Q : Server → Type 0) (r : Result A) → Leads Q Q (give r)
unfolding give
give-keeps Q (ok a) w q = q
give-keeps Q (err e) w q = q

respond-keeps :
    (env : ServerEnv) (Q : Server → Type 0) (waiting : Bool) (response : Response)
    → Leads Q Q (respond env waiting response)
unfolding respond
respond-keeps env Q true response = give-keeps Q _
respond-keeps env Q false response = pure-keeps Q _

conclude-Leads :
    (env : ServerEnv) (rows : List ReverseSwap) (handed : List Held) (d : Draft)
    (sent : SerializedTree)
    → IsAnswer env d.request d.response d.preimage
    → Leads
        (IsUntouched env d.request rows handed)
        (Outcome env d.request rows handed)
        (conclude env d sent)
unfolding conclude
conclude-Leads env rows handed d sent answers =
    then_quiet (Outcome env d.request rows handed) (vet env d (deserialize sent))
      (λ x. pure d.response) (vet-Leads env d rows handed answers (deserialize sent))
      (λ x. pure-keeps _ d.response)

module _ (env : ServerEnv) (request : CreateReverseSwapRequest) (rows : List ReverseSwap)
    (handed : List Held) where
  abbrev Still : Server → Type 0
  Still = IsUntouched env request rows handed

  new_keys-Still : Leads Still Still (new_keys env)
  unfolding new_keys
  new_keys-Still w p = record {
    rows_same = ground (arith, p.rows_same);
    handed_same = ground (arith, p.handed_same);
  }

  accept_pair-Still :
      (o : Option PairInfo) (pair : Pair) → Leads Still Still (accept_pair env o pair)
  unfolding accept_pair get_reverse_pair give need pure ◌>>=◌
  accept_pair-Still o pair w p = record {
    rows_same = ground (arith, p.rows_same);
    handed_same = ground (arith, p.handed_same);
  }

  choose_destination-Still :
      (pair : Pair) (key : String) → Leads Still Still (choose_destination env request pair key)
  unfolding choose_destination give require pure ◌>>=◌
  choose_destination-Still pair key w p = record {
    rows_same = ground (arith, p.rows_same);
    handed_same = ground (arith, p.handed_same);
  }

  -- What follows may use what was answered.
  send_proposal-Leads :
      {B : Type 0} (q : Proposal) (f : Response → Request Server B)
      → ((response : Response)
          → env.propose q ≡ ok response
          → Leads Still (Outcome env request rows handed) (f response))
      → Leads Still (Outcome env request rows handed) (send_proposal env q >>= f)
  unfolding send_proposal ◌>>=◌
  send_proposal-Leads q f kf w p =
      give-Leads (untouched env request rows handed) (env.propose q) f kf
        (record w { proposed = q ∷ w.proposed })
        (record { rows_same = p.rows_same; handed_same = p.handed_same })

  agree-Leads :
      (external is_auto : Bool) (preimage key : String) (accepted : PairInfo)
      (destination : Destination)
      → Leads Still
          (Outcome env request rows handed)
          (agree env request external is_auto preimage key accepted destination)
  unfolding agree
  agree-Leads external is_auto preimage key accepted destination =
      send_proposal-Leads _ _ (λ response answered.
        give-Leads (untouched env request rows handed) _ _ (λ their_key parsed.
          require-Leads (untouched env request rows handed) _ _ (λ limited.
            need-Leads (untouched env request rows handed) _ _ (λ sent is_sent.
              need-Leads (untouched env request rows handed) _ _ (λ percentage has_fees.
                give-Leads (untouched env request rows handed) _ _ (λ chan_ids are_ids.
                  conclude-Leads env rows handed _ sent (record {
                    asked = _;
                    answered = answered;
                    amount = refl;
                    preimage_hash = refl;
                  })))))))

  -- Whatever the server answers, a request for a reverse swap stores nothing and hands nothing to the
  -- nursery, or it stores one swap, which passed every check, and may have handed it to the nursery: its
  -- tree is the client's to claim and its scripts are safe, the lockup address of the answer is the
  -- address of this tree, its amounts pass the check of the fees for the amount that was asked for, and
  -- its invoice is paid by the client's preimage.
  pub create_reverse_swap-IsVetted :
      (is_auto : Bool) (w : Server)
      → w.rows ≡ rows
      → w.handed ≡ handed
      → Outcome env request rows handed (create_reverse_swap env is_auto request w).1
  unfolding create_reverse_swap
  create_reverse_swap-IsVetted is_auto w same_rows same_handed =
      (give-Leads (untouched env request rows handed) _ _ (λ external pays.
          give-Leads (untouched env request rows handed) _ _ (λ immediate returns.
            give-Leads (untouched env request rows handed) _ _ (λ preimage is_new.
              bind-Leads (untouched env request rows handed) _ _ new_keys-Still (λ key.
                bind-Leads (untouched env request rows handed) _ _ (accept_pair-Still _ _)
                  (λ accepted. require-Leads (untouched env request rows handed) _ _ (λ hinted.
                    bind-Leads (untouched env request rows handed) _ _
                      (choose_destination-Still _ key)
                      (λ destination.
                        then_quiet (Outcome env request rows handed)
                          (agree env request external is_auto preimage key accepted destination)
                          (respond env (waits env request immediate))
                          (agree-Leads external is_auto preimage key accepted destination)
                          (respond-keeps env _ _)))))))))
        w (record { rows_same = same_rows; handed_same = same_handed })
