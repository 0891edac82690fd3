-- ===== src/Tests/PeerTests.antt =====
-- Peer links at concrete inputs.
use go_cluster.Prelude.{◌≡◌, refl, true, false, [], ◌∷◌, arith, list_eq, nat_eq}
use go_cluster.Prelude.Int.{pos}
use go_cluster.Prelude.Map.{has_key}
use go_cluster.Prelude.Text.{ascii, ◌=ᵇ◌}
use go_cluster.Peer.SeenKeys.{SeenKeys, new_dedupe_cache, mark_seen}
use go_cluster.Peer.SeenKeys.Once.{marked, pruned, happen_all, mark_seen-once}
use go_cluster.Peer.Backoff.{Backoff, reset}
use go_cluster.Peer.Backoff.Delays.{delay, delay-reset}

abbrev none_seen : SeenKeys
none_seen = new_dedupe_cache (pos 100)

accepted : (mark_seen (ascii "pc92") 5 none_seen).1 ≡ true
unfolding mark_seen
accepted = refl

mark_seen-once_example :
    ((mark_seen (ascii "pc92") 90 (
        happen_all
          (marked (ascii "pc11") 7 ∷ pruned 105 ∷ [])
          (mark_seen (ascii "pc92") 5 none_seen).0)).1
      ≡ false)
    × (has_key (ascii "pc92") none_seen.items ≡ false)
    × ((ascii "pc92" =ᵇ []) ≡ false)
mark_seen-once_example =
    mark_seen-once (ascii "pc92") 5 90 (marked (ascii "pc11") 7 ∷ pruned 105 ∷ []) none_seen tt
      accepted (refl, tt)

abbrev one_seen : SeenKeys
one_seen = record { items = (ascii "pc92", 5) ∷ []; ttl = pos 100 }

abbrev two_seconds : Backoff
two_seconds = record { cur = pos 2000000000; max = pos 300000000000 }

delay-reset_example : delay 3 (reset two_seconds) ≡ pos 0
delay-reset_example = delay-reset 3 two_seconds (omega arith)
