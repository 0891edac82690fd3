-- ===== src/Tests/RingTests.antt =====
-- The ring buffer at concrete inputs.
use go_cluster.Prelude.{ℕ, ◌≡◌, refl, Bool, List, [], ◌∷◌, Option, none, some, arith, ltb, take}
use go_cluster.Prelude.Int.{pos}
use go_cluster.Buffer.Ring.{
  Ring, new_ring_buffer, load, scan, available_of, clip, get_recent, get_recent_filtered,
}
use go_cluster.Buffer.Ring.History.{Holds, after_add, after_add-Holds, new_ring_buffer-Holds}
use go_cluster.Buffer.Ring.Recent.{unique, get_recent-newest}
use go_cluster.Buffer.Ring.Filtered.{matching, seen, get_recent_filtered-newest}

abbrev heap : ℕ → ℕ
heap p = 0

abbrev ring0 : Ring
ring0 = record { slots = none ∷ none ∷ none ∷ []; capacity = 3; total = 0; ids = heap }

ring0-Holds : Holds ring0 []
ring0-Holds = new_ring_buffer-Holds 3 heap (omega arith) (unfold new_ring_buffer in refl)

abbrev ring5 : Ring
ring5 = after_add (after_add (after_add (after_add (after_add ring0 1) 2) 3) 2) 4

abbrev history5 : List ℕ
history5 = 4 ∷ 2 ∷ 3 ∷ 2 ∷ 1 ∷ []

ring5-Holds : Holds ring5 history5
ring5-Holds = after_add-Holds _ _ 4 (
    after_add-Holds _ _ 2
      (after_add-Holds _ _ 3 (after_add-Holds _ _ 2 (after_add-Holds _ _ 1 ring0-Holds))))

ring_runs : get_recent ring5 (pos 9) ≡ some (4 ∷ 2 ∷ 3 ∷ [])
unfolding get_recent available_of clip scan load after_add
ring_runs = refl

get_recent-newest_example : get_recent ring5 (pos 9) ≡ some (take 9 (unique [] (take 3 history5)))
unfolding after_add
get_recent-newest_example =
    get_recent-newest ring5 history5 (pos 9) ring5-Holds (unfold after_add in omega arith)

abbrev even_spots : Option (ℕ → Bool)
even_spots = some (λ p. ltb p 4)

get_recent_filtered-newest_example :
    get_recent_filtered ring5 (pos 2) even_spots
    ≡ some (take 2 (matching even_spots (unique [] (seen even_spots ring5 2 history5))))
get_recent_filtered-newest_example =
    get_recent_filtered-newest even_spots ring5 history5 (pos 2) ring5-Holds
      (unfold after_add in omega arith) (unfold after_add in omega arith)

after_add-Holds_example : Holds (after_add ring0 1) (1 ∷ [])
after_add-Holds_example = after_add-Holds ring0 [] 1 ring0-Holds
