-- ===== src/Lightz/Events/Codec.antt =====
-- The texts of the events, and the two classes of events.
use lightz_client.Base.{true, false, ◌≡◌, refl, ◌||◌, arith}
use lightz_client.Lightz.Events.{
  SwapUpdateEvent, swap_created, swap_expired, invoice_settled, invoice_failed_to_pay,
  transaction_failed, transaction_claimed, transaction_refunded, transaction_lockup_failed,
  eq_event, to_string, parse_event, is_completed_status, is_failed_status,
}

-- Reading the text of an event gives the event back.
pub parse_event-to_string : (event : SwapUpdateEvent) → parse_event (to_string event) ≡ event
unfolding parse_event to_string
parse_event-to_string swap_created = refl
parse_event-to_string _ = refl

-- The completed events are `invoice.settled` and `transaction.claimed`.
pub is_completed_status_lem :
    (event : SwapUpdateEvent)
    → is_completed_status event
      ≡ (eq_event event invoice_settled || eq_event event transaction_claimed)
unfolding is_completed_status
is_completed_status_lem swap_created = refl
is_completed_status_lem _ = refl

-- The failed events are these five.
pub is_failed_status_lem :
    (event : SwapUpdateEvent)
    → is_failed_status event ≡ (
        eq_event event swap_expired
        || (eq_event event invoice_failed_to_pay
            || (eq_event event transaction_failed
                || (eq_event event transaction_lockup_failed
                    || eq_event event transaction_refunded))))
unfolding is_failed_status
is_failed_status_lem swap_created = refl
is_failed_status_lem _ = refl

-- No event is completed and failed at once.
completed_not_failed :
    (event : SwapUpdateEvent) → is_completed_status event ≡ true → is_failed_status event ≡ false
unfolding is_completed_status is_failed_status
completed_not_failed swap_created h = refl
completed_not_failed _ h = ground arith
