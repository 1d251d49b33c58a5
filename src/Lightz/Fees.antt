-- ===== src/Lightz/Fees.antt =====
-- pkg/lightz/fees.go: what a swap may cost, and the check of the amounts that the server asks for.
pub mod Bounds
use lightz_client.Base.{
  ℕ, ◌+◌, ◌*◌, add64, sub64, max, Bool, true, false, if◌then◌else◌, ltb, String, Option, none, some,
  is_some, List, [], ◌∷◌,
}
use lightz_client.Float.{Float64, Arith, calculate_percentage}
use lightz_client.Lightz.Types.{Currency, Pair, SwapType}

pub record TxSizes : Type 0 where
  pub normal_claim : ℕ
  pub reverse_lockup : ℕ
  pub reverse_claim : ℕ

-- The map `Sizes`: a currency that it lacks has Go's zero value.
abbrev pub sizes : Currency → TxSizes
sizes Currency.btc = record { normal_claim = 151; reverse_lockup = 154; reverse_claim = 111 }
sizes Currency.liquid = record { normal_claim = 1337; reverse_lockup = 2503; reverse_claim = 1309 }
sizes _ = record { normal_claim = 0; reverse_lockup = 0; reverse_claim = 0 }

-- The map `FeeEstimations`, in sat/vbyte.
abbrev pub FeeEstimations : Type 0
FeeEstimations = Currency → Option Float64

pub data FeeError : Type 0 where
  invalid_onchain_fee : ℕ → ℕ → ℕ → FeeError
  no_estimation : Currency → FeeError

abbrev pub absolute_fee_tolerance_sat : ℕ
absolute_fee_tolerance_sat = 1500

module _ (a : Arith) where
  -- Indexing a Go map that lacks the key gives 0.0.
  abbrev estimation_or : Option Float64 → Float64
  estimation_or none = a.ratio 0 1
  estimation_or (some x) = x

  normal_network_fee : Pair → FeeEstimations → ℕ
  normal_network_fee pair estimations = a.to_uint64 (
      a.ceil (
        a.mul (a.from_uint64 (sizes pair.from).normal_claim)
          (estimation_or (estimations pair.from))))

  reverse_network_fee : Pair → FeeEstimations → Bool → ℕ
  reverse_network_fee pair estimations include_claim =
      let lockup : ℕ = (sizes pair.to).reverse_lockup in
      let size = if include_claim then lockup + (sizes pair.to).reverse_claim else lockup in
      a.to_uint64 (a.ceil (a.mul (a.from_uint64 size) (estimation_or (estimations pair.to))))

  unfoldable pub calc_network_fee : SwapType → Pair → FeeEstimations → Bool → ℕ
  unfolding normal_network_fee reverse_network_fee
  calc_network_fee SwapType.normal pair estimations include_claim =
      normal_network_fee pair estimations
  calc_network_fee SwapType.reverse pair estimations include_claim =
      reverse_network_fee pair estimations include_claim
  calc_network_fee SwapType.chain pair estimations include_claim =
      add64 (normal_network_fee pair estimations)
        (reverse_network_fee pair estimations include_claim)
  calc_network_fee SwapType.unset pair estimations include_claim =
      a.to_uint64 (a.ceil (a.ratio 0 1))

  abbrev pub tolerance : ℕ → ℕ
  tolerance expected =
      max absolute_fee_tolerance_sat (calculate_percentage a (a.ratio 25 1) expected)

  -- `none` is Go's nil error.
  unfoldable pub check_tolerance : ℕ → ℕ → Option FeeError
  check_tolerance expected actual =
      if ltb (add64 expected (tolerance expected)) actual
      then some (invalid_onchain_fee actual expected (tolerance expected))
      else none

abbrev pub required_estimations : SwapType → Pair → List Currency
required_estimations SwapType.normal pair = pair.from ∷ []
required_estimations SwapType.reverse pair = pair.to ∷ []
required_estimations SwapType.chain pair = pair.from ∷ pair.to ∷ []
required_estimations SwapType.unset pair = []

-- The loop over the required currencies: the first that has no estimation.
abbrev pub missing_estimation : FeeEstimations → List Currency → Option Currency
missing_estimation estimations [] = none
missing_estimation estimations (c ∷ cs) =
    if is_some (estimations c) then missing_estimation estimations cs else some c

module _ (a : Arith) where
  -- The base of the service fee: the received amount of a normal swap, else the sent amount.
  abbrev pub service_fee_of : SwapType → ℕ → ℕ → Float64 → ℕ
  service_fee_of SwapType.normal send receive fee = calculate_percentage a fee receive
  service_fee_of _ send receive fee = calculate_percentage a fee send

  abbrev pub network_fees : SwapType → ℕ → ℕ → Float64 → ℕ
  network_fees swap_type send receive fee =
      sub64 (sub64 send receive) (service_fee_of swap_type send receive fee)

  unfoldable pub check_amounts :
      SwapType → Pair → ℕ → ℕ → Float64 → FeeEstimations → Bool → Option FeeError
  unfolding check_tolerance
  check_amounts swap_type pair send receive fee estimations include_claim =
      elim (missing_estimation estimations (required_estimations swap_type pair)) [
        | some c ↦ some (no_estimation c)
        | none ↦
            check_tolerance a (calc_network_fee a swap_type pair estimations include_claim)
              (network_fees swap_type send receive fee)
      ]
