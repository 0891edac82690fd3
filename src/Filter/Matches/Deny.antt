-- ===== src/Filter/Matches/Deny.antt =====
-- Blocked and allowed callsigns against the whole filter.
use go_cluster.Prelude.{
  ◌≡◌, ap, ◌∙◌, Bool, true, false, not, ◌&&◌, List, [], arith, Bytes, list_eq, nat_eq,
}
use go_cluster.Prelude.Text.{◌=ᵇ◌, upper_trim}
use go_cluster.Spot.Record.{Spot}
use go_cluster.Filter.Pattern.{
  matches_callsign_pattern, any_pattern, add_pattern_unique, remove_pattern,
}
use go_cluster.Filter.Pattern.Lists.{any_pattern-add_pattern_unique, is_empty-add_pattern_unique}
use go_cluster.Filter.State.{Filter}
use go_cluster.Filter.State.Setters.{
  add_dx_callsign_pattern, add_block_dx_callsign_pattern, add_block_de_callsign_pattern,
}
use go_cluster.Filter.Matches.{
  CellEncoder, matches_with_path, passes_basics, passes_place, passes_calls, passes_labels,
  de_call_of,
}

and_false : (a0 a b c : Bool) → b ≡ false → (a0 && a && b && c) ≡ false
and_false a0 a b c h = ground (arith, h)

module _ (f : Filter) (s : Spot) (p : Bytes) (named : (upper_trim p =ᵇ []) ≡ false) where
  passes_calls-add_block_dx_callsign_pattern :
      matches_callsign_pattern s.dx_call (upper_trim p) ≡ true
      → passes_calls (add_block_dx_callsign_pattern p f) s ≡ false
  unfolding passes_calls add_block_dx_callsign_pattern
  passes_calls-add_block_dx_callsign_pattern hit = ground (
    arith,
    named,
    hit,
    any_pattern-add_pattern_unique s.dx_call (upper_trim p) f.block_dx_callsigns,
  )

  passes_calls-add_block_de_callsign_pattern :
      matches_callsign_pattern (de_call_of s) (upper_trim p) ≡ true
      → passes_calls (add_block_de_callsign_pattern p f) s ≡ false
  unfolding passes_calls add_block_de_callsign_pattern
  passes_calls-add_block_de_callsign_pattern hit = ground (
    arith,
    named,
    hit,
    any_pattern-add_pattern_unique (de_call_of s) (upper_trim p) f.block_de_callsigns,
  )

matches_with_path-calls :
    (h3 : CellEncoder) (g : Filter) (s : Spot) (c : Bytes)
    → passes_calls g s ≡ false
    → matches_with_path h3 g s c ≡ false
unfolding matches_with_path
matches_with_path-calls h3 g s c h =
    and_false (passes_basics g s) (passes_place h3 g s) (passes_calls g s) (passes_labels g s c) h

and_swap : (a0 a b c n d : Bool) → b ≡ (n && d) → (a0 && a && b && c) ≡ (n && (a0 && a && d && c))
and_swap a0 a b c n d h = ground (arith, h)

abbrev with_dx_lists : Filter → List Bytes → List Bytes → Filter
with_dx_lists f allow block = record f { dx_callsigns = allow; block_dx_callsigns = block }

add_dx_callsign_pattern-lists :
    (f : Filter) (p : Bytes)
    → (upper_trim p =ᵇ []) ≡ false
    → add_dx_callsign_pattern p f
      ≡ with_dx_lists f
          (add_pattern_unique f.dx_callsigns (upper_trim p))
          (remove_pattern f.block_dx_callsigns (upper_trim p))
unfolding add_dx_callsign_pattern
add_dx_callsign_pattern-lists f p named = ground (arith, named)

passes_calls-allowed :
    (f : Filter) (s : Spot) (p : Bytes)
    → matches_callsign_pattern s.dx_call (upper_trim p) ≡ true
    → passes_calls
        (with_dx_lists f
          (add_pattern_unique f.dx_callsigns (upper_trim p))
          (remove_pattern f.block_dx_callsigns (upper_trim p)))
        s
      ≡ (not (any_pattern s.dx_call (remove_pattern f.block_dx_callsigns (upper_trim p)))
          && passes_calls (with_dx_lists f [] []) s)
unfolding passes_calls
passes_calls-allowed f s p hit = ground (
  arith,
  hit,
  any_pattern-add_pattern_unique s.dx_call (upper_trim p) f.dx_callsigns,
  is_empty-add_pattern_unique (upper_trim p) f.dx_callsigns,
)

module _ (h3 : CellEncoder) (f : Filter) (s : Spot) (path_class p : Bytes)
    (named : (upper_trim p =ᵇ []) ≡ false) where
  -- Once a non-empty DX pattern is blocked, no spot of a DX call that it matches passes, whatever
  -- else the filter allows.
  pub matches_with_path-add_block_dx_callsign_pattern :
      matches_callsign_pattern s.dx_call (upper_trim p) ≡ true
      → matches_with_path h3 (add_block_dx_callsign_pattern p f) s path_class ≡ false
  matches_with_path-add_block_dx_callsign_pattern hit =
      matches_with_path-calls h3 _ s path_class
        (passes_calls-add_block_dx_callsign_pattern f s p named hit)

  pub matches_with_path-add_block_de_callsign_pattern :
      matches_callsign_pattern (de_call_of s) (upper_trim p) ≡ true
      → matches_with_path h3 (add_block_de_callsign_pattern p f) s path_class ≡ false
  matches_with_path-add_block_de_callsign_pattern hit =
      matches_with_path-calls h3 _ s path_class
        (passes_calls-add_block_de_callsign_pattern f s p named hit)

  -- Once a non-empty DX pattern is allowed, a spot of a DX call that it matches passes exactly if
  -- none of the other blocked patterns matches the call, and it passes the filter without its DX
  -- pattern lists.
  pub matches_with_path-add_dx_callsign_pattern :
      matches_callsign_pattern s.dx_call (upper_trim p) ≡ true
      → matches_with_path h3 (add_dx_callsign_pattern p f) s path_class ≡ (
          not (any_pattern s.dx_call (remove_pattern f.block_dx_callsigns (upper_trim p)))
          && matches_with_path h3
              (record f { dx_callsigns = []; block_dx_callsigns = [] })
              s
              path_class)
  unfolding matches_with_path passes_basics passes_place passes_labels
  matches_with_path-add_dx_callsign_pattern hit =
      ap (λ g. matches_with_path h3 g s path_class) (add_dx_callsign_pattern-lists f p named)
      ∙ and_swap (passes_basics f s) (passes_place h3 f s) _ (passes_labels f s path_class) _ _
          (passes_calls-allowed f s p hit)
