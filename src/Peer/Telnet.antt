-- ===== src/Peer/Telnet.antt =====
-- `telnetParser.Feed` of peer/protocol.go: the telnet commands taken out of the bytes of one read.
-- `inIAC` and `inSB` are local variables of the call, so both start at false in every read.
pub mod Stream
use go_cluster.Prelude.{ℕ, Bool, true, false, List, [], ◌∷◌, ◌==◌, if◌then◌else◌, Bytes}

abbrev pub iac : ℕ
iac = 255

abbrev pub dont : ℕ
dont = 254

abbrev pub wont : ℕ
wont = 252

-- The cases of the `switch` behind an IAC.
pub data Command : Type 0 where
  sb se do_option will_option escaped other : Command

abbrev pub command : ℕ → Command
command b =
    if b == 250
    then sb
    else if b == 240
    then se
    else if b == 253
    then do_option
    else if b == 251
    then will_option
    else if b == iac
    then escaped
    else other

-- What a call returns: the payload and the replies.
pub record Fed : Type 0 where
  pub output : Bytes
  pub replies : List Bytes

abbrev pub no_bytes : Fed
no_bytes = record { output = []; replies = [] }

abbrev pub emit : ℕ → Fed → Fed
emit b f = record f { output = b ∷ f.output }

abbrev pub reply : Bytes → Fed → Fed
reply r f = record f { replies = r ∷ f.replies }

-- What the loop does with a byte outside a command.
pub data Plain : Type 0 where
  starts skipped kept : Plain

abbrev pub plain : Bool → ℕ → Plain
plain in_sb b = if b == iac then starts else if in_sb then skipped else kept

-- The loop from a byte on, with `inIAC` and `inSB` as they stand.
unfoldable pub feed_from : Bool → Bool → Bytes → Fed
feed_from in_iac in_sb [] = no_bytes
feed_from true in_sb (b ∷ []) = elim (command b) [ escaped ↦ emit iac no_bytes | _ ↦ no_bytes ]
feed_from true in_sb (b ∷ x ∷ rest) = elim (command b) [
  | sb ↦ feed_from false true (x ∷ rest)
  | se ↦ feed_from false false (x ∷ rest)
  | do_option ↦ reply (iac ∷ wont ∷ x ∷ []) (feed_from false in_sb rest)
  | will_option ↦ reply (iac ∷ dont ∷ x ∷ []) (feed_from false in_sb rest)
  | escaped ↦ emit iac (feed_from false in_sb (x ∷ rest))
  | other ↦ feed_from false in_sb (x ∷ rest)
]
feed_from false in_sb (b ∷ rest) = elim (plain in_sb b) [
  | starts ↦ feed_from true in_sb rest
  | skipped ↦ feed_from false in_sb rest
  | kept ↦ emit b (feed_from false in_sb rest)
]

unfoldable pub feed : Bytes → Fed
unfolding feed_from
feed input = feed_from false false input
