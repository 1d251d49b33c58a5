-- ===== src/Lightz/Pairs.antt =====
-- pkg/lightz/pair.go: the lookup of a pair in a nested map.
use lightz_client.Base.{Option, none, some}
use lightz_client.Lightz.Types.{Currency, Pair, Result, ok, err, errorf}

-- `map[Currency]map[Currency]T`
abbrev pub Nested : Type 0 → Type 0
Nested T = Currency → Option (Currency → Option T)

unfoldable pub find_pair : {T : Type 0} → Pair → Nested T → Result T
find_pair pair nested = elim (nested pair.from) [
  | none ↦ err (errorf "could not find pair from")
  | some from ↦ elim (from pair.to) [ none ↦ err (errorf "could not find pair to") | some t ↦ ok t ]
]
