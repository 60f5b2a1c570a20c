-- ===== src/Json.antt =====
-- breUtils/Json: values, their printing and their parsing.
pub mod Value
pub mod Access
pub mod Members
pub mod Iterator
pub mod Equality
pub mod Doubles
pub mod Generator
pub mod Cursor
pub mod Numbers
pub mod Strings
pub mod Parser
pub mod Clean
mod Tests
