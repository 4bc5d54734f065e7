-- ===== src/Minecraft/Packet.antt =====
-- Packets and the status exchange: `writePacket`, `readPacket`, `MCPingConn`. `none` is a writer
-- that does not end. What the network does is an argument: whether each of the four writes
-- succeeds, and the bytes that the other side answers.
pub mod Exchange
pub mod Handshake
use rms_gate.Base.{
  ℕ, ◌+◌, ◌*◌, ◌/◌, ◌%◌, Bool, not, ◌&&◌, ◌||◌, Option, none, some, List, ◌∷◌, ◌++◌, ltb, ◌==◌,
  if◌then◌else◌, ◌>>=◌, length, take, drop, two_32, lt_32, le_32,
}
use rms_gate.Minecraft.VarInt.{write_var_int, ok, err, read_var_int}

-- An int32 takes at most five rounds.
abbrev pub var_int : ℕ → Option (List ℕ)
var_int = write_var_int 5

-- `writeString`: the length in bytes, and the bytes.
unfoldable pub write_string : List ℕ → Option (List ℕ)
write_string s = var_int (length s % two_32) >>= λ n. some (n ++ s)

-- What `writePacket` sends when both of its writes succeed.
unfoldable pub write_packet : List ℕ → Option (List ℕ)
write_packet payload = var_int (length payload % two_32) >>= λ n. some (n ++ payload)

-- `readPacket`: the payload and what follows it, or an error.
unfoldable pub read_packet : List ℕ → Option (List ℕ × List ℕ)
read_packet src = elim (read_var_int src) [
  | err e ↦ none
  | ok (n, rest) ↦
      if le_32 n 0 || lt_32 (1024 * 1024) n
      then none
      else if ltb (length rest) n
      then none
      else some (take n rest, drop n rest)
]

-- The payload of the handshake: packet 0, protocol 767, the address, the port in big-endian order,
-- and the next state 1.
unfoldable pub handshake : List ℕ → ℕ → Option (List ℕ)
unfolding write_string
handshake host port = var_int 0 >>= λ id. var_int 767 >>= λ version. write_string host >>= λ name.
    var_int 1 >>= λ state. some (id ++ (version ++ (name ++ ((port / 256) ∷ (port % 256) ∷ state))))

pub data PingError : Type 0 where
  dial_failed handshake_failed request_failed response_failed unexpected_id invalid_length :
      PingError

-- What a write through a connection comes to: `sent i` says whether the i-th write succeeds.
abbrev packet_sent : (ℕ → Bool) → ℕ → Bool
packet_sent sent i = sent i && sent (i + 1)

-- The checks on the answer, behind `readPacket`.
unfoldable pub check_response : List ℕ → Option PingError
check_response packet = elim (read_var_int packet) [
  | err e ↦ some unexpected_id
  | ok (id, rest) ↦
      if id == 0
      then elim (read_var_int rest) [
        | err e ↦ some invalid_length
        | ok (n, _) ↦ if le_32 n 0 then some invalid_length else none
      ]
      else some unexpected_id
]

-- `MCPingConn`: nil, `none` inside, is a server that is up.
unfoldable pub mc_ping_conn : List ℕ → ℕ → (ℕ → Bool) → List ℕ → Option (Option PingError)
unfolding handshake write_packet check_response
mc_ping_conn host port sent answer = handshake host port >>= λ hello. write_packet hello >>= λ _.
    if not (packet_sent sent 0)
    then some (some handshake_failed)
    else (var_int 0 >>= λ request. write_packet request >>= λ _.
        if not (packet_sent sent 2) then some (some request_failed) else elim (read_packet answer) [
          | none ↦ some (some response_failed)
          | some (packet, _) ↦ some (check_response packet)
        ])
