-- ===== src/Peer/Telnet/Stream.antt =====
-- A peer's bytes as a sequence of telnet items, and what `Feed` makes of it.
use go_cluster.Prelude.{
  ℕ, Bool, true, false, List, [], ◌∷◌, ◌++◌, ◌≡◌, refl, ◌==◌, not, ◌&&◌, ◌||◌, Bytes, arith,
}
use go_cluster.Peer.Telnet.{
  iac, dont, wont, Command, other, command, Fed, emit, reply, feed_from, feed,
}

-- A well-formed piece of a telnet stream: a byte of data, an escaped 255, a request for an option, a
-- refusal of one, another command of two bytes, or a subnegotiation with its body.
pub data Item : Type 0 where
  data_byte : ℕ → Item
  doubled_iac : Item
  asks_do asks_will : ℕ → Item
  says_dont says_wont : ℕ → Item
  plain_command : ℕ → Item
  negotiation : Bytes → Item

-- No byte of the body is 255.
abbrev pub has_no_iac : Bytes → Bool
has_no_iac [] = true
has_no_iac (b ∷ body) = not (b == iac) && has_no_iac body

abbrev pub is_other : Command → Bool
is_other other = true
is_other _ = false

-- A command that has no byte behind it. The option of a refusal is not 255 here, which would be a
-- command again.
abbrev pub is_item : Item → Bool
is_item (data_byte b) = not (b == iac)
is_item (says_dont x) = not (x == iac)
is_item (says_wont x) = not (x == iac)
is_item (plain_command b) = is_other (command b) && not (b == dont) && not (b == wont)
is_item (negotiation body) = has_no_iac body
is_item _ = true

abbrev pub are_items : List Item → Bool
are_items [] = true
are_items (i ∷ items) = is_item i && are_items items

abbrev pub wire : Item → Bytes → Bytes
wire (data_byte b) rest = b ∷ rest
wire doubled_iac rest = 255 ∷ 255 ∷ rest
wire (asks_do x) rest = 255 ∷ 253 ∷ x ∷ rest
wire (asks_will x) rest = 255 ∷ 251 ∷ x ∷ rest
wire (says_dont x) rest = 255 ∷ 254 ∷ x ∷ rest
wire (says_wont x) rest = 255 ∷ 252 ∷ x ∷ rest
wire (plain_command b) rest = 255 ∷ b ∷ rest
wire (negotiation body) rest = 255 ∷ 250 ∷ body ++ (255 ∷ 240 ∷ rest)

-- The bytes of the items, and what follows them.
abbrev pub wires : List Item → Bytes → Bytes
wires [] rest = rest
wires (i ∷ items) rest = wire i (wires items rest)

-- What comes out of an item, and the refusal that it is answered by. The option of a DONT or a WONT
-- is not taken off.
abbrev pub answered : Item → Fed → Fed
answered (data_byte b) f = emit b f
answered doubled_iac f = emit iac f
answered (asks_do x) f = reply (iac ∷ wont ∷ x ∷ []) f
answered (asks_will x) f = reply (iac ∷ dont ∷ x ∷ []) f
answered (says_dont x) f = emit x f
answered (says_wont x) f = emit x f
answered (plain_command b) f = f
answered (negotiation body) f = f

abbrev pub all_answered : List Item → Fed → Fed
all_answered [] f = f
all_answered (i ∷ items) f = answered i (all_answered items f)

abbrev is_refusal : Bytes → Bool
is_refusal (a ∷ b ∷ x ∷ []) = a == iac && (b == wont || b == dont)
is_refusal _ = false

abbrev pub are_refusals : List Bytes → Bool
are_refusals [] = true
are_refusals (r ∷ rs) = is_refusal r && are_refusals rs

feed_from-refusals :
    (in_iac in_sb : Bool) (s : Bytes) → are_refusals ((feed_from in_iac in_sb s).replies) ≡ true
unfolding feed_from
feed_from-refusals in_iac in_sb [] = refl
feed_from-refusals true in_sb (b ∷ []) = ground arith
feed_from-refusals true in_sb (b ∷ x ∷ rest) = ground (
  arith,
  feed_from-refusals false in_sb rest,
  feed_from-refusals false true (x ∷ rest),
  feed_from-refusals false false (x ∷ rest),
  feed_from-refusals false in_sb (x ∷ rest),
)
feed_from-refusals false in_sb (b ∷ rest) =
    ground (arith, feed_from-refusals true in_sb rest, feed_from-refusals false in_sb rest)

-- Whatever a peer sends, every reply is one refusal of three bytes: IAC, then WONT or DONT, then the
-- option.
pub feed-are_refusals : (s : Bytes) → are_refusals ((feed s).replies) ≡ true
unfolding feed
feed-are_refusals s = feed_from-refusals false false s
