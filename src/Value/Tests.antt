-- ===== src/Value/Tests.antt =====
-- Runs of the value operations.
use looplet.Prelude.{◌≡◌, refl, true, false}
use looplet.Value.{pos, int, bool}
use looplet.Value.Same.{same_value}

-- `True` is not `1`, though Python's `==` says so
same_value-bool_int : same_value (bool true) (int (pos 1)) ≡ false
unfolding same_value
same_value-bool_int = refl
