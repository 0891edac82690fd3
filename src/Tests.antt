-- ===== src/Tests.antt =====
-- Theorems at concrete inputs, and runs of the definitions.
mod Samples
mod RingTests
mod DedupTests
mod SpotTests
mod FilterTests
mod PeerTests
mod ReaderTests
mod FrameTests
mod CtyTests
mod CooldownTests
mod AveragerTests
mod LogsTests
mod MetadataTests
mod AdaptiveTests
mod RatelimitTests
mod ReputationTests
