-- ===== src/Peer/Backoff.antt =====
-- `backoff` of peer/backoff.go: the delay before the next attempt to reach a peer.
pub mod Delays
use go_cluster.Prelude.{
  ℕ, zero, suc, ◌+◌, ◌-◌, ◌*◌, ◌%◌, ◌^◌, Bool, true, false, List, [], ◌∷◌, if◌then◌else◌,
}
use go_cluster.Prelude.Int.{ℤ, pos, negsuc, leb_ℤ, ltb_ℤ}
use go_cluster.Prelude.Machine.{Duration, to_int}

pub record Backoff : Type 0 where
  pub cur : Duration
  pub max : Duration

abbrev pub to_u64 : ℤ → ℕ
to_u64 (pos n) = n
to_u64 (negsuc n) = 2 ^ 64 - 1 - n

-- `d * 2` on an int64.
abbrev pub doubled : Duration → Duration
doubled d = to_int (to_u64 d * 2 % 2 ^ 64)

abbrev pub base_or_second : Duration → Duration
base_or_second base = if leb_ℤ base (pos 0) then pos 1000000000 else base

unfoldable pub new_backoff : Duration → Duration → Backoff
new_backoff raw max =
    let base = base_or_second raw in
    record { cur = base; max = if ltb_ℤ max base then base else max }

unfoldable pub next : Backoff → Backoff × Duration
next b =
    let cur = doubled b.cur in
    if leb_ℤ b.max b.cur
    then (b, b.max)
    else (record b { cur = if ltb_ℤ b.max cur then b.max else cur }, b.cur)

unfoldable pub reset : Backoff → Backoff
reset b = record b { cur = pos 0 }
