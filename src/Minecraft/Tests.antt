-- ===== src/Minecraft/Tests.antt =====
-- The theorems on the ping at concrete numbers and packets.
use rms_gate.Base.{ℕ, ◌≤◌, ◌≡◌, refl, true, Option, none, some, List, [], ◌∷◌, ◌++◌, arith, length}
use rms_gate.Minecraft.VarInt.{write_var_int, read_var_int, ok}
use rms_gate.Minecraft.VarInt.RoundTrip.{read-write}
use rms_gate.Minecraft.VarInt.{shr7_32}
use rms_gate.Minecraft.Packet.{write_packet, read_packet, handshake}
use rms_gate.Minecraft.Packet.Handshake.{parse_hello, handshake-read}
use rms_gate.Minecraft.Ping.{port_of, mc_ping_addr_string, ping_up}

read-write_example :
    (bs : List ℕ) × (write_var_int 5 767 ≡ some bs)
    × (read_var_int (bs ++ (9 ∷ [])) ≡ ok (767, 9 ∷ []))
    × (1 ≤ length bs)
    × (length bs ≤ 5)
read-write_example = read-write 767 (9 ∷ []) (omega arith)

-- An address of one byte that names no port.
handshake-read_example :
    (payload : List ℕ) × (packet : List ℕ) × (handshake (97 ∷ []) 25565 ≡ some payload)
    × (write_packet payload ≡ some packet)
    × (read_packet (packet ++ (9 ∷ [])) ≡ some (payload, 9 ∷ []))
    × (parse_hello payload
        ≡ some (record { id = 0; protocol = 767; address = 97 ∷ []; port = 25565; next_state = 1 }))
handshake-read_example = handshake-read (97 ∷ []) (9 ∷ []) 25565 (omega arith) (omega arith)

abbrev no_port : List ℕ → List ℕ × List ℕ
no_port addr = (addr, [])

abbrev no_number : List ℕ → Option ℕ
no_number text = none

ping_up_example :
    mc_ping_addr_string no_port no_number
      (some (record { sent = λ i. true; answer = (3 ∷ 0 ∷ 1 ∷ 123 ∷ []) ++ (9 ∷ []) }))
      (97 ∷ [])
    ≡ some none
unfolding port_of write_packet write_var_int shr7_32
ping_up_example =
    ping_up no_port no_number (97 ∷ []) (123 ∷ []) (9 ∷ []) (0 ∷ []) (1 ∷ []) (3 ∷ 0 ∷ 1 ∷ 123 ∷ [])
      1 (λ i. true) (omega arith) (omega arith) (λ i. refl) (omega arith) (omega arith)
      (omega arith) refl refl refl
