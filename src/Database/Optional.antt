-- ===== src/Database/Optional.antt =====
-- internal/database/database.go, `addToOptional`: a sum on a value that may be absent.
use lightz_client.Base.{ℕ, add64, Option, none, some}

unfoldable pub add_to_optional : Option ℕ → ℕ → Option ℕ
add_to_optional none add = some add
add_to_optional (some v) add = some (add64 v add)
