-- ===== src/MdnsResponder/Packets.antt =====
-- Packets of at most 1400 bytes: `toPackets` of src/discovery/MdnsResponder.cpp.
pub mod Sizes
use air_show.Prelude.{
  ℕ, ◌+◌, Bool, true, false, not, ◌&&◌, ◌||◌, List, [], ◌∷◌, ◌++◌, if◌then◌else◌, ltb, leb, Bytes,
  length, is_empty,
}
use air_show.Dns.Message.{Record, Message}
use air_show.Dns.Writer.{serialize}

-- `kMaxPacket`.
abbrev pub max_packet : ℕ
max_packet = 1400

-- `packets` and `cur` of `toPackets`.
pub record Packing : Type 0 where
  pub packets : List Bytes
  pub cur : Message

-- `base`: the message without its answers and additionals.
abbrev pub base_of : Message → Message
base_of m = record m { answers = []; additionals = [] }

abbrev pub push : Bool → Record → Message → Message
push additional r m =
    if additional
    then record m { additionals = m.additionals ++ (r ∷ []) }
    else record m { answers = m.answers ++ (r ∷ []) }

abbrev pub count : Message → ℕ
count m = length m.answers + length m.additionals

-- The lambda `add`.
unfoldable pub add : Message → Bool → Record → Packing → Packing
unfolding serialize
add base additional r p =
    if ltb 1 (count (push additional r p.cur))
      && ltb max_packet (length (serialize (push additional r p.cur)))
    then record { packets = p.packets ++ (serialize p.cur ∷ []); cur = push additional r base }
    else record p { cur = push additional r p.cur }

-- One of the two loops.
unfoldable pub add_all : Message → Bool → List Record → Packing → Packing
unfolding add
add_all base additional [] p = p
add_all base additional (r ∷ rs) p = add_all base additional rs (add base additional r p)

unfoldable pub to_packets : Message → List Bytes
unfolding add_all serialize
to_packets m =
    let whole = serialize m in
    let done =
      add_all (base_of m) true m.additionals
        (add_all (base_of m) false m.answers (record { packets = []; cur = base_of m })) in
    if leb (length whole) max_packet || not (is_empty m.authorities)
    then whole ∷ []
    else if is_empty done.cur.answers && is_empty done.cur.additionals
    then done.packets
    else done.packets ++ (serialize done.cur ∷ [])
