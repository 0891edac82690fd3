-- ===== src/Filter.antt =====
-- Package filter (filter/filter.go): which spots a telnet user receives.
pub mod Dimension
pub mod Tokens
pub mod Pattern
pub mod State
pub mod Matches
