-- ===== src/Peer/SeenKeys.antt =====
-- `dedupeCache` of peer/dedupe.go: the keys of frames that were seen.
pub mod Once
use go_cluster.Prelude.{
  ℕ, Bool, true, false, not, Option, none, some, List, [], ◌∷◌, if◌then◌else◌, Bytes, list_eq,
  list_beq, nat_eq,
}
use go_cluster.Prelude.Int.{ltb_ℤ}
use go_cluster.Prelude.Machine.{Instant, Duration, time_sub}
use go_cluster.Prelude.Map.{Map, has_key, insert, keep_if}
use go_cluster.Prelude.Text.{◌=ᵇ◌}

pub record SeenKeys : Type 0 where
  pub items : Map Bytes Instant
  pub ttl : Duration

abbrev pub new_dedupe_cache : Duration → SeenKeys
new_dedupe_cache ttl = record { items = []; ttl = ttl }

-- `markSeen`, of a cache that is not nil.
unfoldable pub mark_seen : Bytes → Instant → SeenKeys → SeenKeys × Bool
mark_seen key now c =
    if key =ᵇ []
    then (c, false)
    else if has_key key c.items
    then (c, false)
    else (record c { items = insert key now c.items }, true)

abbrev pub outlived : Instant → Duration → Instant → Bool
outlived now ttl seen = ltb_ℤ ttl (time_sub now seen)

unfoldable pub prune : Instant → SeenKeys → SeenKeys
prune now c = record c { items = keep_if (λ key seen. not (outlived now c.ttl seen)) c.items }
