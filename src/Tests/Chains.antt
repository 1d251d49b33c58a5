-- ===== src/Tests/Chains.antt =====
-- Concrete inputs of the theorems on chains, wallets, fees and events.
use lightz_client.Base.{
  ◌+◌, ◌≤◌, ◌<◌, ◌≡◌, ◌≢◌, ◌↔◌, ◌⊎◌, refl, true, false, none, some, [], ◌∷◌, All, head?, arith,
}
use lightz_client.Float.{millionths, calculate_percentage, percent_ratio}
use lightz_client.Lightz.Types.{Currency, Pair, SwapType, ok}
use lightz_client.Lightz.Events.{transaction_claim_pending, parse_event, to_string}
use lightz_client.Lightz.Events.Codec.{parse_event-to_string}
use lightz_client.Lightz.Fees.{
  FeeEstimations, check_amounts, missing_estimation, required_estimations, tolerance,
  calc_network_fee,
}
use lightz_client.Lightz.Fees.Bounds.{
  check_amounts-none_iff, check_amounts_undercharged, expected_fee, service_fee,
}
use lightz_client.Onchain.Chain.{
  ChainProvider, get_currency, new_tx_from_hex, get_transaction, find_output, fetch, OutputResult,
}
use lightz_client.Onchain.Chain.Lockup.{find_output-ok, fetch-first_success}
use lightz_client.Onchain.MultiChain.{
  MultiChainProvider, confirmed_votes, height_votes, is_transaction_confirmed, get_block_height,
}
use lightz_client.Onchain.MultiChain.Trust.{
  SomeConfirms, AllFail, is_transaction_confirmed-source, is_transaction_confirmed-ignores_server,
  IsAbove, get_block_height-IsAbove,
}
use lightz_client.Onchain.Wallets.{
  WalletChecker, get_any_wallet, first_allowed, allowed, get_wallets,
}
use lightz_client.Onchain.Wallets.Selection.{Suits, get_wallets-Suits, get_any_wallet-ok}
use lightz_client.Tests.Fixtures.{
  percent, broken, provider, deaf_provider, onchain, lockup_tx, codec, wallet, output_args,
}

abbrev found : OutputResult
found = record { transaction = lockup_tx; vout = 0; value = 50000 }

find_output-found : find_output codec onchain output_args ≡ ok found
unfolding find_output get_transaction fetch get_currency new_tx_from_hex
find_output-found = refl

find_output-ok_example :
    (get_transaction codec onchain Currency.btc "lockup" "" true ≡ ok lockup_tx)
    × (codec.find_vout lockup_tx "bc1lockup" ≡ ok (0, 50000))
    × (40000 ≤ 50000)
find_output-ok_example = find_output-ok codec onchain output_args found find_output-found

fetch-first_success_example : fetch provider "lockup" 0 5 ≡ ok "beef"
fetch-first_success_example =
    fetch-first_success provider "lockup" 2 0 5 "beef" (omega arith)
      ((broken, refl), ((broken, refl), tt)) refl

abbrev silent : MultiChainProvider
silent = record { providers = deaf_provider ∷ deaf_provider ∷ []; lightz = some provider }

abbrev answering : MultiChainProvider
answering = record { providers = deaf_provider ∷ provider ∷ []; lightz = none }

silent-confirmed : is_transaction_confirmed silent "tx" ≡ ok true
unfolding is_transaction_confirmed confirmed_votes
silent-confirmed = refl

is_transaction_confirmed-source_example :
    SomeConfirms "tx" silent.providers
    ⊎ (AllFail "tx" silent.providers
        × ((l : ChainProvider) × (silent.lightz ≡ some l) × (l.is_confirmed 0 "tx" ≡ ok true)))
is_transaction_confirmed-source_example =
    is_transaction_confirmed-source silent "tx" silent-confirmed

answering-AllFail : ¬ AllFail "tx" answering.providers
answering-AllFail (first, ((e, second), rest)) = ground arith

is_transaction_confirmed-ignores_server_example :
    is_transaction_confirmed (record answering { lightz = some deaf_provider }) "tx"
    ≡ is_transaction_confirmed answering "tx"
is_transaction_confirmed-ignores_server_example =
    is_transaction_confirmed-ignores_server answering (some deaf_provider) "tx" answering-AllFail

answering-height :
    (get_block_height answering ≡ ok 100) × ((height_votes (0, 0) answering.providers).1 < 2)
unfolding get_block_height height_votes
answering-height = (refl, omega arith)

get_block_height-IsAbove_example : IsAbove 100 answering.providers
get_block_height-IsAbove_example =
    get_block_height-IsAbove answering 100 answering-height.1 answering-height.0

abbrev checker : WalletChecker
checker = record {
  id = none;
  name = some "main";
  currency = Currency.btc;
  allow_readonly = false;
  tenant_id = some 1;
}

get_wallets-Suits_example : All (Suits checker) (get_wallets (wallet ∷ []) checker)
get_wallets-Suits_example = get_wallets-Suits (wallet ∷ []) checker

chosen : get_any_wallet (wallet ∷ []) checker ≡ ok wallet
unfolding get_any_wallet first_allowed allowed
chosen = refl

get_any_wallet-ok_example :
    (head? (get_wallets (wallet ∷ []) checker) ≡ some wallet) × Suits checker wallet
get_any_wallet-ok_example = get_any_wallet-ok (wallet ∷ []) checker wallet chosen

parse_event-to_string_example :
    parse_event (to_string transaction_claim_pending) ≡ transaction_claim_pending
parse_event-to_string_example = parse_event-to_string transaction_claim_pending

abbrev btc_pair : Pair
btc_pair = record { from = Currency.btc; to = Currency.btc }

-- 3 sat/vbyte: the network fee of a normal swap is 453, and its tolerance 1500.
abbrev rates : FeeEstimations
rates c = some (millionths.ratio 3 1)

fees-normal :
    (service_fee millionths SwapType.normal btc_pair 51000 50000 (percent 1) rates false ≡ 500)
    × (expected_fee millionths SwapType.normal btc_pair 51000 50000 (percent 1) rates false ≡ 453)
    × (tolerance millionths 453 ≡ 1500)
unfolding calc_network_fee calculate_percentage percent_ratio
fees-normal = (refl, refl, refl)

check_amounts-none_iff_example :
    (check_amounts millionths SwapType.normal btc_pair 51000 50000 (percent 1) rates false ≡ none)
    ↔ ((missing_estimation rates (required_estimations SwapType.normal btc_pair) ≡ none)
        × (51000
            ≤ 50000
              + service_fee millionths SwapType.normal btc_pair 51000 50000 (percent 1) rates false
              + (expected_fee millionths SwapType.normal btc_pair 51000 50000
                    (percent 1)
                    rates
                    false
                  + tolerance millionths (
                      expected_fee millionths SwapType.normal btc_pair 51000 50000
                        (percent 1)
                        rates
                        false))))
unfolding calc_network_fee calculate_percentage percent_ratio
check_amounts-none_iff_example =
    check_amounts-none_iff millionths SwapType.normal btc_pair 51000 50000 (percent 1) rates false
      (omega arith) (omega arith) (omega arith)

-- The service fee alone would be 500.
check_amounts_undercharged_example :
    check_amounts millionths SwapType.normal btc_pair 50100 50000 (percent 1) rates false ≢ none
unfolding calc_network_fee calculate_percentage percent_ratio
check_amounts_undercharged_example =
    check_amounts_undercharged millionths SwapType.normal btc_pair 50100 50000 (percent 1) rates
      false (omega arith) (omega arith) (omega arith) (omega arith) (omega arith)
