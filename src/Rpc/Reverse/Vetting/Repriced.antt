-- ===== src/Rpc/Reverse/Vetting/Repriced.antt =====
-- The amount of the invoice of a reverse swap does not count in the checks of the server's answer.
use lightz_client.Base.{ℕ, String, ◌≡◌, refl, ap, Bool, true, false, Option, none, some, ◌∷◌, map}
use lightz_client.Lightz.Types.{Error, Result, ok, err}
use lightz_client.Lightz.SwapTree.{SwapTree}
use lightz_client.Database.ReverseSwap.{ReverseSwap, Held}
use lightz_client.Nursery.Handler.{Handler, pure, branch, on_result, or_crash, ◌>>=◌, ◌>>◌}
use lightz_client.Nursery.Reverse.World.{ReverseEnv, Node, get_reverse_swap}
use lightz_client.Nursery.Reverse.Payment.{
  calculate_fee_limit, is_being_paid, start_payment, pay_with, pay_on, pay_reverse_swap,
}
use lightz_client.Rpc.Request.{Request, Answer, give, require, ◌>>=◌ as ◌>>>=◌}
use lightz_client.Rpc.Reverse.{Invoice, ServerEnv, Server, check_payment_hash, invoice_msat}
use lightz_client.Rpc.Reverse.Steps.{
  row_of, check_address, blinding_of, verdict, insert_row, insert_answer, announced,
  register_answer, register_reverse_swap,
}
use lightz_client.Rpc.Reverse.Creation.{Draft, swap_of, store_swap, vet}

abbrev map_option : (ℕ → ℕ) → Option ℕ → Option ℕ
map_option f none = none
map_option f (some n) = some (f n)

abbrev map_decoded : (ℕ → ℕ) → Result (Option ℕ) → Result (Option ℕ)
map_decoded f (err e) = err e
map_decoded f (ok amount) = ok (map_option f amount)

abbrev map_invoice : (ℕ → ℕ) → Result Invoice → Result Invoice
map_invoice f (err e) = err e
map_invoice f (ok invoice) = ok (record invoice { milli_sat = map_option f invoice.milli_sat })

-- The same nursery, where every invoice with an amount has another amount.
abbrev pub repriced_nursery : (ℕ → ℕ) → ReverseEnv → ReverseEnv
repriced_nursery f env = record env {
  libraries = record env.libraries {
    decode_msat = λ invoice. map_decoded f (env.libraries.decode_msat invoice);
  };
}

-- The same server and client, where every invoice with an amount has another amount.
abbrev pub repriced : (ℕ → ℕ) → ServerEnv → ServerEnv
repriced f env = record env {
  reverse = repriced_nursery f env.reverse;
  decode_invoice = λ text. map_invoice f (env.decode_invoice text);
}

-- A swap but for the amount of its invoice.
abbrev pub but_amount : ReverseSwap → ReverseSwap
but_amount s = record s { invoice_amount = 0 }

-- Two fee limits, or the same failure.
data IsAlike : Option (Result ℕ) → Option (Result ℕ) → Type 0 where
  no_amount : IsAlike none none
  no_invoice : (e : Error) → IsAlike (some (err e)) (some (err e))
  limits : (limit limit' : ℕ) → IsAlike (some (ok limit)) (some (ok limit'))

module _ (f : ℕ → ℕ) (env : ReverseEnv) (invoice : String) where
  limit_with :
      (ppm : ℕ) (r : Result (Option ℕ))
      → env.libraries.decode_msat invoice ≡ r
      → IsAlike
          (calculate_fee_limit (repriced_nursery f env) invoice ppm)
          (calculate_fee_limit env invoice ppm)
  unfolding calculate_fee_limit
  limit_with ppm (err e) same = rw (same, calculate_fee_limit) (no_invoice e)
  limit_with ppm (ok none) same = rw (same, calculate_fee_limit) no_amount
  limit_with ppm (ok (some msat)) same = rw (same, calculate_fee_limit) (limits _ _)

  abbrev spend : Bool → Option (Result ℕ) → Handler Held (Option Error)
  spend busy x = or_crash x (λ answer.
      on_result answer (λ e. pure (some e))
        (λ limit. branch busy (pure none) (start_payment invoice limit >> pure none)))

  spend-eq :
      (busy : Bool) (x y : Option (Result ℕ)) (h k : Held)
      → IsAlike x y
      → (spend busy x h).0 ≡ (spend busy y k).0
  unfolding or_crash on_result branch pure start_payment ◌>>=◌
  spend-eq busy _ _ h k no_amount = refl
  spend-eq busy _ _ h k (no_invoice e) = refl
  spend-eq true _ _ h k (limits limit limit') = refl
  spend-eq false _ _ h k (limits limit limit') = refl

module _ (f : ℕ → ℕ) (env : ReverseEnv) (s : ReverseSwap) (m n : ℕ) where
  pay_on-same :
      (node : Option Node) (h k : Held)
      → (pay_on (repriced_nursery f env) node (record s { invoice_amount = m }) h).0
        ≡ (pay_on env node (record s { invoice_amount = n }) k).0
  unfolding pay_on pay_with pure
  pay_on-same none h k = refl
  pay_on-same (some node) h k =
      spend-eq f env s.invoice
        (is_being_paid (node.payment_status (env.libraries.sha256 s.preimage))) _ _ h k
        (limit_with f env s.invoice _ _ refl)

  pay_external-same :
      (external : Bool) (h k : Held)
      → (branch external
          (pure none)
          (pay_on (repriced_nursery f env) env.lightning (record s { invoice_amount = m }))
          h).0
        ≡ (branch external
            (pure none)
            (pay_on env env.lightning (record s { invoice_amount = n }))
            k).0
  unfolding branch pure
  pay_external-same true h k = refl
  pay_external-same false h k = pay_on-same env.lightning h k

-- The same answer, and the same swaps in the database but for the amounts of their invoices.
pub record IsSame (r r' : Answer Unit × Server) : Type 0 where
  pub answers : r.0 ≡ r'.0
  pub rows : map but_amount r.1.rows ≡ map but_amount r'.1.rows

require-IsSame :
    (o : Option Error) (m n : Unit {0} → Request Server Unit) (w : Server)
    → IsSame (m tt w) (n tt w)
    → IsSame ((require o >>>= m) w) ((require o >>>= n) w)
unfolding require ◌>>>=◌
require-IsSame none m n w same = same
require-IsSame (some e) m n w same = record { answers = refl; rows = refl }

give-IsSame :
    {A : Type 0} (r : Result A) (m n : A → Request Server Unit) (w : Server)
    → ((a : A) → IsSame (m a w) (n a w))
    → IsSame ((give r >>>= m) w) ((give r >>>= n) w)
unfolding give ◌>>>=◌
give-IsSame (ok a) m n w same = same a
give-IsSame (err e) m n w same = record { answers = refl; rows = refl }

module _ (f : ℕ → ℕ) (env : ServerEnv) (d : Draft) (tree : SwapTree) (w : Server) where
  invoice-IsSame :
      (r : Result Invoice) (m n : Invoice → Request Server Unit)
      → ((invoice : Invoice)
          → IsSame
              (m (record invoice { milli_sat = map_option f invoice.milli_sat }) w)
              (n invoice w))
      → IsSame ((give (map_invoice f r) >>>= m) w) ((give r >>>= n) w)
  unfolding give ◌>>>=◌
  invoice-IsSame (ok invoice) m n same = same invoice
  invoice-IsSame (err e) m n same = record { answers = refl; rows = refl }

  amount-IsSame :
      (amount : Option ℕ) (hash : String) (m n : ℕ → Request Server Unit)
      → ((a b : ℕ) → IsSame (m a w) (n b w))
      → IsSame
          ((give (invoice_msat (record { payment_hash = hash; milli_sat = map_option f amount }))
              >>>= m)
            w)
          ((give (invoice_msat (record { payment_hash = hash; milli_sat = amount })) >>>= n) w)
  unfolding invoice_msat give ◌>>>=◌
  amount-IsSame none hash m n same = record { answers = refl; rows = refl }
  amount-IsSame (some a) hash m n same = same (f a) a

  register-IsSame :
      (registers : Option Error) (a b : ℕ) (v v' : Server)
      → map but_amount v.rows ≡ map but_amount v'.rows
      → IsSame
          (register_answer (repriced f env) registers (swap_of (repriced f env) d tree a) v)
          (register_answer env registers (swap_of env d tree b) v')
  unfolding swap_of blinding_of pay_reverse_swap get_reverse_swap ◌>>=◌
  register-IsSame (some e) a b v v' same = record { answers = refl; rows = same }
  register-IsSame none a b v v' same =
      let paid =
        pay_external-same f env.reverse (swap_of env d tree 0) a b d.external
          (announced (repriced f env) (swap_of (repriced f env) d tree a))
          (announced env (swap_of env d tree b)) in
      record { answers = ap verdict paid; rows = same }

  insert-IsSame :
      (inserts : Option Error) (a b : ℕ)
      → IsSame
          ((insert_answer (repriced f env) inserts (swap_of (repriced f env) d tree a) >>>= λ x.
              register_reverse_swap (repriced f env) (swap_of (repriced f env) d tree a))
            w)
          ((insert_answer env inserts (swap_of env d tree b) >>>= λ x.
              register_reverse_swap env (swap_of env d tree b))
            w)
  unfolding register_reverse_swap swap_of blinding_of ◌>>>=◌
  insert-IsSame (some e) a b = record { answers = refl; rows = refl }
  insert-IsSame none a b =
      register-IsSame env.register a b
        (record w { rows = row_of env.reverse.now (swap_of (repriced f env) d tree a) ∷ w.rows })
        (record w { rows = row_of env.reverse.now (swap_of env d tree b) ∷ w.rows }) refl

  store_swap-IsSame :
      (a b : ℕ)
      → IsSame
          (store_swap (repriced f env) (swap_of (repriced f env) d tree a) w)
          (store_swap env (swap_of env d tree b) w)
  unfolding store_swap insert_row
  store_swap-IsSame = insert-IsSame env.insert

-- Whatever other amounts the invoices have, as the server gives them and as the client pays them, a
-- request gets the same answer and stores the same swap but for that amount: the server's invoice is
-- not held against the amount of the request.
pub vet-ignores_invoice_amount :
    (reprice : ℕ → ℕ) (env : ServerEnv) (d : Draft) (sent : SwapTree) (w : Server)
    → IsSame (vet (repriced reprice env) d sent w) (vet env d sent w)
unfolding vet check_address blinding_of check_payment_hash
vet-ignores_invoice_amount reprice env d sent w = give-IsSame _ _ _ w (λ tree.
    require-IsSame _ _ _ w (
      require-IsSame _ _ _ w (
        require-IsSame _ _ _ w (
          invoice-IsSame reprice env d tree w (env.decode_invoice d.response.invoice) _ _
            (λ invoice. require-IsSame _ _ _ w (
              amount-IsSame reprice env d tree w invoice.milli_sat invoice.payment_hash _ _
                (λ a b. store_swap-IsSame reprice env d tree w _ _)))))))
