-- ===== src/Autoswap/Budget/Interval.antt =====
-- The interval of a budget, and what is left of it.
use lightz_client.Base.{
  Bool, true, false, if◌then◌else◌, ℕ, zero, suc, ◌+◌, ◌-◌, ◌≤◌, ◌<◌, ◌^◌, ◌≡◌, refl, ltb, ltb→lt,
  ltb→le, arith,
}
use lightz_client.Base.Int.{ℤ, pos, negsuc, pos_part, neg_part, to_int64, from_int64, sub_int64}
use lightz_client.Autoswap.Budget.{BudgetInterval, advance, remaining}

-- The interval `rounds` durations after another: each round starts where the last one ends.
unfoldable pub shifted : (rounds duration : ℕ) → BudgetInterval → BudgetInterval
shifted zero duration i = i
shifted (suc r) duration i =
    shifted r duration (record { start_date = i.end_date; end_date = i.end_date + duration })

-- The interval lies some rounds after the old one, it is not over, and all those before it are.
pub record IsCurrent (now duration : ℕ) (old new : BudgetInterval) : Type 0 where
  pub rounds : ℕ
  pub is_shifted : new ≡ shifted rounds duration old
  pub not_over : now ≤ new.end_date
  pub first : (k : ℕ) → k < rounds → (shifted k duration old).end_date < now

abbrev next_of : ℕ → BudgetInterval → BudgetInterval
next_of duration i = record { start_date = i.end_date; end_date = i.end_date + duration }

next-first :
    (now duration rounds : ℕ) (i : BudgetInterval)
    → i.end_date < now
    → ((k : ℕ) → k < rounds → (shifted k duration (next_of duration i)).end_date < now)
    → (k : ℕ) → k < suc rounds
    → (shifted k duration i).end_date < now
unfolding shifted
next-first now duration rounds i over h zero lt = over
next-first now duration rounds i over h (suc k) lt = h k (omega arith)

step-IsCurrent :
    (b : Bool) (now duration : ℕ) (i next : BudgetInterval)
    → (b ≡ false → now ≤ i.end_date)
    → (b ≡ true → i.end_date < now)
    → IsCurrent now duration
        (record { start_date = i.end_date; end_date = i.end_date + duration })
        next
    → IsCurrent now duration i (if b then next else i)
unfolding shifted
step-IsCurrent false now duration i next stays moves h = record {
  rounds = 0;
  is_shifted = refl;
  not_over = stays refl;
  first = λ k lt. omega arith;
}
step-IsCurrent true now duration i next stays moves h = record {
  rounds = suc h.rounds;
  is_shifted = h.is_shifted;
  not_over = h.not_over;
  first = next-first now duration h.rounds i (moves refl) h.first;
}

-- With a positive duration and as many rounds as the end lies behind, the loop ends, at the first of
-- the intervals that follow each other from the old one that is not over.
pub advance-IsCurrent :
    (n now duration : ℕ) (i : BudgetInterval)
    → 0 < duration
    → now ≤ i.end_date + n
    → IsCurrent now duration i (advance n now duration i)
unfolding advance shifted
advance-IsCurrent zero now duration i positive enough = record {
  rounds = 0;
  is_shifted = refl;
  not_over = omega arith;
  first = λ k lt. omega arith;
}
advance-IsCurrent (suc n) now duration i positive enough =
    step-IsCurrent (ltb i.end_date now) now duration i _ (λ e. ltb→le _ _ e) (λ e. ltb→lt _ _ e)
      (advance-IsCurrent n now duration _ positive (omega arith))

-- Where the budget and the fees are below 2^62 in size, what is left is their difference, or 0.
pub remaining-lem :
    (budget : ℕ) (fees : ℤ)
    → budget < 2 ^ 62
    → pos_part fees < 2 ^ 62
    → neg_part fees < 2 ^ 62
    → remaining budget fees ≡ budget + neg_part fees - pos_part fees
unfolding remaining to_int64 from_int64 sub_int64
remaining-lem budget (pos n) p q r = ground arith
remaining-lem budget (negsuc n) p q r = ground arith
