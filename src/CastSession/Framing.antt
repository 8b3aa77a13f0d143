-- ===== src/CastSession/Framing.antt =====
-- The framing of the connection: `onReadyRead` of src/protocol/CastSession.cpp.
pub mod Whole
use air_show.Prelude.{
  ℕ, zero, suc, ◌+◌, ◌%◌, ◌^◌, leb, Bool, true, false, List, [], ◌∷◌, ◌++◌, Option, none, some,
  if◌then◌else◌, ltb, Bytes, length, take, drop,
}
use air_show.Dns.Wire.{be32}
use air_show.CastSession.{CastMessage, Env, Session}
use air_show.CastSession.Dispatch.{dispatch_message}

pub data ReadState : Type 0 where
  reading_header reading_payload : ReadState

pub record Input : Type 0 where
  pub buffer : Bytes
  pub read_state : ReadState
  pub expected_len : ℕ

-- The first half of a round of the loop, where the loop stops on none.
unfoldable pub read_header : Input → Option Input
unfolding be32
read_header i = elim i.read_state [
  | reading_payload ↦ some i
  | reading_header ↦
      if ltb (length i.buffer) 4
      then none
      else some (record {
        buffer = drop 4 i.buffer;
        read_state = reading_payload;
        expected_len = be32 i.buffer 0;
      })
]

-- What `left` and `remove` take for a size cast to `int`: nothing where that is negative.
abbrev pub as_int : ℕ → ℕ
as_int size = if leb (2 ^ 31) size then 0 else size

-- The second half: the payload and what is left. The buffer's size is cast to 32 bits.
unfoldable pub read_payload : Input → Option (Bytes × Input)
read_payload i =
    if ltb (length i.buffer % 2 ^ 32) i.expected_len
    then none
    else some (
      take (as_int i.expected_len) i.buffer,
      record i { buffer = drop (as_int i.expected_len) i.buffer; read_state = reading_header },
    )

module _ {Json : Type 0} (env : Env Json) where
  unfoldable pub take_payload : Bytes → Session → Session
  unfolding dispatch_message
  take_payload bytes s = elim (env.parse bytes) [ none ↦ s | some m ↦ dispatch_message env m s ]

  -- The loop, on fuel: a round takes the four bytes of a header, but for the first one where a payload
  -- is left to be read.
  unfoldable pub read_loop : ℕ → Input → Session → Input × Session
  unfolding read_header read_payload take_payload
  read_loop zero i s = (i, s)
  read_loop (suc fuel) i s = elim (read_header i) [
    | none ↦ (i, s)
    | some j ↦ elim (read_payload j) [
      | none ↦ (j, s)
      | some (payload, k) ↦ read_loop fuel k (take_payload payload s)
    ]
  ]

  unfoldable pub on_ready_read : Bytes → Input → Session → Input × Session
  unfolding read_loop
  on_ready_read bytes i s =
      let j = record i { buffer = i.buffer ++ bytes } in read_loop (suc (length j.buffer)) j s
