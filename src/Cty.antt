-- ===== src/Cty.antt =====
-- Package cty (cty/): the countries of callsigns.
pub mod Trie
pub mod Database
