-- ===== src/Autoswap/Checks.antt =====
-- internal/autoswap/recommendation.go, balance.go and util.go, and `CalculateFeeEstimate` of
-- internal/utils/fees.go: the checks that a recommended swap has to pass.
pub mod Bounds
use lightz_client.Base.{
  ℕ, ◌-◌, add64, sub64, min, String, Bool, true, false, not, ◌&&◌, ◌=ₛ◌, ◌==◌, if◌then◌else◌, ltb,
  any, is_empty, Option, none, some, List, [], ◌∷◌, ◌++◌,
}
use lightz_client.Float.{Float64, Arith, calculate_percentage}
use lightz_client.Lightz.Types.{Error, errorf}

-- `Balance` of a configuration: a number of satoshis, or a share of the capacity.
pub record Balance : Type 0 where
  pub absolute : ℕ
  pub relative : Float64

abbrev pub is_absolute : Balance → Bool
is_absolute b = not (b.absolute == 0)

abbrev pub is_zero : Arith → Balance → Bool
is_zero a b = b.absolute == 0 && a.is_nought b.relative

unfoldable pub get : Arith → Balance → ℕ → ℕ
get a b capacity =
    if is_absolute b then min b.absolute capacity else calculate_percentage a b.relative capacity

-- `lightzrpc.PairInfo`, flattened: its limits and its fees.
pub record PairInfo : Type 0 where
  pub minimal : ℕ
  pub maximal : ℕ
  pub percentage : Float64
  pub miner_fees : ℕ

unfoldable pub calculate_fee_estimate : Arith → PairInfo → ℕ → ℕ
calculate_fee_estimate a pair amount =
    add64 (calculate_percentage a pair.percentage amount) pair.miner_fees

-- The reasons to dismiss a recommendation.
abbrev pub reason_max_fee_percent : String
reason_max_fee_percent = "fee exceeds maximum percentage"

abbrev pub reason_amount_below_min : String
reason_amount_below_min = "amount below minimal"

abbrev pub reason_budget_exceeded : String
reason_budget_exceeded = "budget exceeded"

abbrev pub reason_pending_swap : String
reason_pending_swap = "pending swap"

abbrev pub reason_failed_swap : String
reason_failed_swap = "failed swap"

abbrev pub reason_insufficient_funds : String
reason_insufficient_funds = "insufficient funds"

-- `checks`
pub record Checks : Type 0 where
  pub amount : ℕ
  pub fee_estimate : ℕ
  pub dismissed_reasons : List String

abbrev pub dismiss : String → Checks → Checks
dismiss reason c = record c { dismissed_reasons = c.dismissed_reasons ++ reason ∷ [] }

abbrev pub dismiss_if : Bool → String → Checks → Checks
dismiss_if true reason c = dismiss reason c
dismiss_if false reason c = c

abbrev pub dismissed : Checks → Bool
dismissed c = not (is_empty c.dismissed_reasons)

pub record CheckParams : Type 0 where
  pub max_fee_percent : Float64
  pub pair : PairInfo
  pub dismissed_reasons : List String

module _ (a : Arith) where
  -- `math.Min` of the amount and the limit, as floats.
  abbrev pub adjusted_amount : ℕ → PairInfo → ℕ
  adjusted_amount amount pair =
      a.to_uint64 (a.fmin (a.from_uint64 amount) (a.from_uint64 pair.maximal))

  -- The checks of the limits and of the fee, in the code's order.
  unfoldable pub check_limits : ℕ → CheckParams → Checks
  check_limits amount params =
      let adjusted = adjusted_amount amount params.pair in
      let fee = calculate_fee_estimate a params.pair adjusted in
      dismiss_if (ltb (calculate_percentage a params.max_fee_percent adjusted) fee)
        reason_max_fee_percent
        (dismiss_if (ltb adjusted params.pair.minimal) reason_amount_below_min (record {
          amount = adjusted;
          fee_estimate = fee;
          dismissed_reasons = params.dismissed_reasons;
        }))

  -- The check of the budget: the new checks and what is left of the budget.
  unfoldable pub charge : Checks → ℕ → Checks × ℕ
  charge c budget =
      if ltb budget c.fee_estimate
      then (dismiss reason_budget_exceeded c, budget)
      else (c, sub64 budget c.fee_estimate)

  -- `check`; both callers give a budget.
  unfoldable pub check : ℕ → CheckParams → ℕ → Checks × ℕ
  unfolding check_limits charge
  check amount params budget = charge (check_limits amount params) budget

-- `slices.Contains`
abbrev pub contains : String → List String → Bool
contains reason = any (λ r. r =ₛ reason)

-- Every current reason has to be an accepted one.
unfoldable pub check_accepted_reasons : List String → List String → Option Error
check_accepted_reasons accepted [] = none
check_accepted_reasons accepted (reason ∷ current) =
    if contains reason accepted
    then check_accepted_reasons accepted current
    else some (errorf "swap recommendation does not match")

-- The map `DismissedChannels`, by channel id, and its `addChannels`.
abbrev pub DismissedChannels : Type 0
DismissedChannels = List (ℕ × List String)

unfoldable pub lookup_channel : ℕ → DismissedChannels → List String
lookup_channel id [] = []
lookup_channel id ((key, reasons) ∷ rest) = if key == id then reasons else lookup_channel id rest

unfoldable pub add_channel : DismissedChannels → ℕ → String → DismissedChannels
unfolding lookup_channel
add_channel dismissed_channels id reason =
    if contains reason (lookup_channel id dismissed_channels)
    then dismissed_channels
    else (id, lookup_channel id dismissed_channels ++ reason ∷ []) ∷ dismissed_channels

unfoldable pub add_ids : DismissedChannels → List ℕ → String → DismissedChannels
add_ids dismissed_channels [] reason = dismissed_channels
add_ids dismissed_channels (id ∷ ids) reason =
    add_ids (add_channel dismissed_channels id reason) ids reason

-- A swap without channels, `none`, counts for the channel 0.
unfoldable pub add_channels : DismissedChannels → Option (List ℕ) → String → DismissedChannels
unfolding add_ids
add_channels dismissed_channels none reason = add_ids dismissed_channels (0 ∷ []) reason
add_channels dismissed_channels (some ids) reason = add_ids dismissed_channels ids reason
