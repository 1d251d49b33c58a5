-- ===== src/Lightz/Events.antt =====
-- pkg/lightz/events.go: the status events of the server, their texts and their classes.
pub mod Codec
use lightz_client.Base.{ℕ, String, Bool, true, false, ◌==◌, ◌=ₛ◌, if◌then◌else◌, List, [], ◌∷◌, any}

pub data SwapUpdateEvent : Type 0 where
  swap_created : SwapUpdateEvent
  swap_expired : SwapUpdateEvent
  invoice_set : SwapUpdateEvent
  invoice_paid : SwapUpdateEvent
  invoice_pending : SwapUpdateEvent
  invoice_settled : SwapUpdateEvent
  invoice_failed_to_pay : SwapUpdateEvent
  channel_created : SwapUpdateEvent
  transaction_failed : SwapUpdateEvent
  transaction_mempool : SwapUpdateEvent
  transaction_claimed : SwapUpdateEvent
  transaction_refunded : SwapUpdateEvent
  transaction_confirmed : SwapUpdateEvent
  transaction_lockup_failed : SwapUpdateEvent
  transaction_claim_pending : SwapUpdateEvent
  transaction_server_mempool : SwapUpdateEvent
  transaction_server_confirmed : SwapUpdateEvent
  transaction_direct : SwapUpdateEvent
  transaction_direct_mempool : SwapUpdateEvent

-- The number that `iota` gives to an event: Go compares events by it.
abbrev pub ordinal : SwapUpdateEvent → ℕ
ordinal swap_created = 0
ordinal swap_expired = 1
ordinal invoice_set = 2
ordinal invoice_paid = 3
ordinal invoice_pending = 4
ordinal invoice_settled = 5
ordinal invoice_failed_to_pay = 6
ordinal channel_created = 7
ordinal transaction_failed = 8
ordinal transaction_mempool = 9
ordinal transaction_claimed = 10
ordinal transaction_refunded = 11
ordinal transaction_confirmed = 12
ordinal transaction_lockup_failed = 13
ordinal transaction_claim_pending = 14
ordinal transaction_server_mempool = 15
ordinal transaction_server_confirmed = 16
ordinal transaction_direct = 17
ordinal transaction_direct_mempool = 18

abbrev pub eq_event : SwapUpdateEvent → SwapUpdateEvent → Bool
eq_event a b = ordinal a == ordinal b

-- The map `swapUpdateEventStrings`.
abbrev pub swap_update_event_strings : List (String × SwapUpdateEvent)
swap_update_event_strings =
    ("swap.created", swap_created)
    ∷ ("swap.expired", swap_expired)
    ∷ ("invoice.set", invoice_set)
    ∷ ("invoice.paid", invoice_paid)
    ∷ ("invoice.pending", invoice_pending)
    ∷ ("invoice.settled", invoice_settled)
    ∷ ("invoice.failedToPay", invoice_failed_to_pay)
    ∷ ("channel.created", channel_created)
    ∷ ("transaction.failed", transaction_failed)
    ∷ ("transaction.mempool", transaction_mempool)
    ∷ ("transaction.claimed", transaction_claimed)
    ∷ ("transaction.refunded", transaction_refunded)
    ∷ ("transaction.confirmed", transaction_confirmed)
    ∷ ("transaction.lockupFailed", transaction_lockup_failed)
    ∷ ("transaction.claim.pending", transaction_claim_pending)
    ∷ ("transaction.server.mempool", transaction_server_mempool)
    ∷ ("transaction.server.confirmed", transaction_server_confirmed)
    ∷ ("transaction.direct", transaction_direct)
    ∷ ("transaction.direct.mempool", transaction_direct_mempool)
    ∷ []

abbrev find_text : SwapUpdateEvent → List (String × SwapUpdateEvent) → String
find_text event [] = ""
find_text event ((key, value) ∷ rest) = if eq_event event value then key else find_text event rest

-- `event.String()`. The map holds each event once, so Go's order of iteration does not matter.
unfoldable pub to_string : SwapUpdateEvent → String
to_string event = find_text event swap_update_event_strings

abbrev find_event : String → List (String × SwapUpdateEvent) → SwapUpdateEvent
find_event text [] = swap_created
find_event text ((key, value) ∷ rest) = if text =ₛ key then value else find_event text rest

-- A text that the map lacks reads as Go's zero value, `SwapCreated`.
unfoldable pub parse_event : String → SwapUpdateEvent
parse_event text = find_event text swap_update_event_strings

unfoldable pub completed_status : List String
unfolding to_string
completed_status = to_string invoice_settled ∷ to_string transaction_claimed ∷ []

unfoldable pub failed_status : List String
unfolding to_string
failed_status =
    to_string swap_expired
    ∷ to_string invoice_failed_to_pay
    ∷ to_string transaction_failed
    ∷ to_string transaction_lockup_failed
    ∷ to_string transaction_refunded
    ∷ []

unfoldable pub is_completed_status : SwapUpdateEvent → Bool
unfolding to_string completed_status
is_completed_status event =
    let event_string = to_string event in any (λ value. value =ₛ event_string) completed_status

unfoldable pub is_failed_status : SwapUpdateEvent → Bool
unfolding to_string failed_status
is_failed_status event =
    let event_string = to_string event in any (λ value. value =ₛ event_string) failed_status
