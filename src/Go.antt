-- ===== src/Go.antt =====
-- What the Go code takes from the language, its standard library and the outside: errors as values,
-- `float64`, `encoding/json`, and the world that a service acts on.
pub mod Errors
pub mod Float
pub mod Json
pub mod World
pub mod Text
