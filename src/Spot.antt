-- ===== src/Spot.antt =====
-- Package spot: the spot record and its normalisation (spot/spot.go), callsigns and their cache
-- (spot/callsign.go, spot/ssid.go), bands (spot/bands.go), sources (spot/source.go), and the gates
-- of the call correction (spot/cooldown.go, spot/adaptive_min_reports.go,
-- spot/frequency_averager.go).
pub mod Bands
pub mod Callsign
pub mod CallCache
pub mod Adaptive
pub mod Averager
pub mod Cooldown
pub mod Record
