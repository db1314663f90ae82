-- ===== src/Stdlib.antt =====
-- stdlib/stdlib.go: the standard actions. `Compare` has the comparison of values, `Actions` the
-- actions and their factories; what is proved of them stands in the modules below those two.
pub mod Compare
pub mod Actions
