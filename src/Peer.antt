-- ===== src/Peer.antt =====
-- Package peer (peer/): the links to other clusters.
pub mod SeenKeys
pub mod Backoff
pub mod Telnet
pub mod Reader
pub mod Frame
pub mod Pc93
pub mod Wwv
pub mod Manager
