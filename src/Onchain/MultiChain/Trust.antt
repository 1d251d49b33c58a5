-- ===== src/Onchain/MultiChain/Trust.antt =====
-- When the server's own provider decides.
use lightz_client.Base.{
  ℕ, suc, ◌+◌, ◌≤◌, ◌<◌, ◌≡◌, refl, ◌⊎◌, inl, inr, String, Bool, true, false, Option, some, none,
  List, [], ◌∷◌, length, arith, All, Bool-cases, Option-cases, ==→eq, ◌==◌, sym, ◌∙◌, subst,
  false≢true,
}
use lightz_client.Lightz.Types.{Error, Result, ok, err}
use lightz_client.Onchain.Chain.{ChainProvider}
use lightz_client.Onchain.MultiChain.{
  MultiChainProvider, count_vote, count_height, confirmed_votes, is_transaction_confirmed,
  height_votes, get_block_height,
}

-- Some provider of the list has seen the transaction confirmed.
abbrev pub SomeConfirms : String → List ChainProvider → Type 0
SomeConfirms tx [] = ⊥
SomeConfirms tx (p ∷ ps) = (p.is_confirmed 0 tx ≡ ok true) ⊎ SomeConfirms tx ps

abbrev pub AllFail : String → List ChainProvider → Type 0
AllFail tx ps = All (λ p. (e : Error) × (p.is_confirmed 0 tx ≡ err e)) ps

confirmed_votes-true :
    (tx : String) (ps : List ChainProvider) (acc : Bool × ℕ)
    → (confirmed_votes tx acc ps).0 ≡ true
    → (acc.0 ≡ true) ⊎ SomeConfirms tx ps
unfolding confirmed_votes
confirmed_votes-true tx [] acc h = inl h
confirmed_votes-true tx (p ∷ ps) acc h =
    go (p.is_confirmed 0 tx) refl
      (confirmed_votes-true tx ps (count_vote (p.is_confirmed 0 tx) acc) h)
  where
    go :
        (r : Result Bool)
        → p.is_confirmed 0 tx ≡ r
        → ((count_vote r acc).0 ≡ true) ⊎ SomeConfirms tx ps
        → (acc.0 ≡ true) ⊎ SomeConfirms tx (p ∷ ps)
    go r e (inr later) = inr (inr later)
    go (err e) q (inl before) = inl before
    go (ok true) q (inl before) = inr (inl q)
    go (ok false) q (inl before) = inl before

confirmed_votes-le :
    (tx : String) (ps : List ChainProvider) (acc : Bool × ℕ)
    → (confirmed_votes tx acc ps).1 ≤ acc.1 + length ps
unfolding confirmed_votes
confirmed_votes-le tx [] acc = omega arith
confirmed_votes-le tx (p ∷ ps) acc =
    go (p.is_confirmed 0 tx) (confirmed_votes-le tx ps (count_vote (p.is_confirmed 0 tx) acc))
  where
    go :
        (r : Result Bool) {k : ℕ}
        → k ≤ (count_vote r acc).1 + length ps
        → k ≤ acc.1 + suc (length ps)
    go (err e) h = omega arith
    go (ok true) h = omega arith
    go (ok false) h = omega arith

confirmed_votes-full :
    (tx : String) (ps : List ChainProvider) (acc : Bool × ℕ)
    → (confirmed_votes tx acc ps).1 ≡ acc.1 + length ps
    → AllFail tx ps
unfolding confirmed_votes
confirmed_votes-full tx [] acc h = tt
confirmed_votes-full tx (p ∷ ps) acc h =
    let next : Bool × ℕ = count_vote (p.is_confirmed 0 tx) acc in
    go (p.is_confirmed 0 tx) refl (confirmed_votes-le tx ps next) (confirmed_votes-full tx ps next)
      h
  where
    go :
        (r : Result Bool)
        → p.is_confirmed 0 tx ≡ r
        → (confirmed_votes tx (count_vote r acc) ps).1 ≤ (count_vote r acc).1 + length ps
        → ((confirmed_votes tx (count_vote r acc) ps).1 ≡ (count_vote r acc).1 + length ps
            → AllFail tx ps)
        → (confirmed_votes tx (count_vote r acc) ps).1 ≡ acc.1 + suc (length ps)
        → AllFail tx (p ∷ ps)
    go (err e) q le ih full = ((e, q), ih (omega arith))
    go (ok true) q le ih full = absurd (omega arith)
    go (ok false) q le ih full = absurd (omega arith)

-- A transaction counts as confirmed only if one of the providers has confirmed it, or if every
-- provider failed to answer and the server's provider confirms it.
pub is_transaction_confirmed-source :
    (m : MultiChainProvider) (tx : String)
    → is_transaction_confirmed m tx ≡ ok true
    → SomeConfirms tx m.providers
      ⊎ (AllFail tx m.providers
          × ((l : ChainProvider) × (m.lightz ≡ some l) × (l.is_confirmed 0 tx ≡ ok true)))
unfolding is_transaction_confirmed
is_transaction_confirmed-source m tx h =
    elim (Bool-cases ((confirmed_votes tx (false, 0) m.providers).1 == length m.providers)) [
      | inl all ↦ inr (
        confirmed_votes-full tx m.providers (false, 0) (omega (arith, ==→eq _ _ all)),
        decided all (Option-cases m.lightz),
      )
      | inr some_answer ↦ elim (confirmed_votes-true tx m.providers (false, 0) (ground arith)) [
        | inl absurdly ↦ absurd (false≢true absurdly)
        | inr found ↦ inl found
      ]
    ]
  where
    decided :
        ((confirmed_votes tx (false, 0) m.providers).1 == length m.providers) ≡ true
        → (m.lightz ≡ none) ⊎ ((l : ChainProvider) × (m.lightz ≡ some l))
        → (l : ChainProvider) × (m.lightz ≡ some l) × (l.is_confirmed 0 tx ≡ ok true)
    decided all (inl e) = absurd (ground arith)
    decided all (inr (l, e)) = (l, e, ground arith)

-- While some provider answers, the server's provider has no say.
pub is_transaction_confirmed-ignores_server :
    (m : MultiChainProvider) (l : Option ChainProvider) (tx : String)
    → ¬ AllFail tx m.providers
    → is_transaction_confirmed (record m { lightz = l }) tx ≡ is_transaction_confirmed m tx
unfolding is_transaction_confirmed
is_transaction_confirmed-ignores_server m l tx answers =
    elim (Bool-cases ((confirmed_votes tx (false, 0) m.providers).1 == length m.providers)) [
      | inl all ↦
          absurd (
            answers (confirmed_votes-full tx m.providers (false, 0) (omega (arith, ==→eq _ _ all))))
      | inr some_answer ↦ rw some_answer
    ]

-- `h` is at least every height that a provider of the list reports.
abbrev pub IsAbove : ℕ → List ChainProvider → Type 0
IsAbove h [] = Unit
IsAbove h (p ∷ ps) = ((k : ℕ) → p.block_height ≡ ok k → k ≤ h) × IsAbove h ps

height_votes-IsAbove :
    (ps : List ChainProvider) (acc : ℕ × ℕ)
    → (acc.0 ≤ (height_votes acc ps).0) × IsAbove (height_votes acc ps).0 ps
unfolding height_votes
height_votes-IsAbove [] acc = (omega arith, tt)
height_votes-IsAbove (p ∷ ps) acc =
    go (p.block_height) refl (height_votes-IsAbove ps (count_height p.block_height acc))
  where
    go :
        (r : Result ℕ) {h : ℕ}
        → p.block_height ≡ r
        → ((count_height r acc).0 ≤ h) × IsAbove h ps
        → (acc.0 ≤ h) × (((k : ℕ) → p.block_height ≡ ok k → k ≤ h) × IsAbove h ps)
    go (err e) q (le, rest) = (le, ((λ k e'. cc), rest))
    go (ok n) q (le, rest) =
        (omega arith, ((λ k e'. let e'' : ok n ≡ ok k = sym q ∙ e' in ground arith), rest))

-- The reported height is at least that of every provider that answers, while one of them does.
pub get_block_height-IsAbove :
    (m : MultiChainProvider) (h : ℕ)
    → (height_votes (0, 0) m.providers).1 < length m.providers
    → get_block_height m ≡ ok h
    → IsAbove h m.providers
unfolding get_block_height
get_block_height-IsAbove m h answers e =
    let same : (height_votes (0, 0) m.providers).0 ≡ h = ground arith in
    subst (λ k. IsAbove k m.providers) same (height_votes-IsAbove m.providers (0, 0)).1
