-- ===== src/Flag.antt =====
-- breUtils/flag/flag.hpp: `FlagInfo` and `Flag`.
pub mod Numbers
pub mod State
pub mod Parse
pub mod Suitable
pub mod Written
pub mod Laws
mod Tests
