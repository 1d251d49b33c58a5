-- ===== src/Nursery/Handler/Failing.antt =====
-- The closures `handleError` of internal/nursery: an error is handed to the swap's error handler, and
-- the status handler returns.
pub mod Rules
use lightz_client.Base.{Option, none, some}
use lightz_client.Lightz.Types.{Error, Result, ok, err}
use lightz_client.Nursery.Handler.{Handler, pure, stop, ◌>>=◌, ◌>>◌}

module _ {W : Type 0} (handle_error : Error → Handler W Unit) where
  -- `handleError(…); return`
  unfoldable pub fail : {A : Type 0} → Error → Handler W A
  fail e = handle_error e >> stop

  unfoldable pub or_fail : Option Error → Handler W Unit
  or_fail none = pure tt
  or_fail (some e) = fail e

  unfoldable pub ok_or_fail : {A : Type 0} → Result A → Handler W A
  ok_or_fail (ok a) = pure a
  ok_or_fail (err e) = fail e
