-- ===== src/Minecraft/Ping.antt =====
-- `MCPingAddrString`, and `MCPing`, which only prints the address: dialling, then the status exchange
-- on the connection. net.SplitHostPort, Sscanf and what the dialler answers are arguments.
use rms_gate.Base.{
  ℕ, ◌+◌, ◌*◌, ◌≤◌, ◌<◌, ◌≡◌, refl, sym, ap, ◌∙◌, Bool, true, Option, none, some, List, [], ◌++◌,
  arith, length, length-append, two_31,
}
use mathlib.Core.Option.{some-injective}
use rms_gate.Minecraft.VarInt.RoundTrip.{read-write}
use rms_gate.Minecraft.Packet.{
  PingError, dial_failed, var_int, write_packet, read_packet, check_response, mc_ping_conn,
}
use rms_gate.Minecraft.Packet.Exchange.{read-write_packet, check_response-accepts}
use rms_gate.Minecraft.Packet.Handshake.{hello-parsed}

-- A connection: whether each write succeeds, and the bytes that the other side sends.
pub record Connection : Type 0 where
  pub sent : ℕ → Bool
  pub answer : List ℕ

length-var_int :
    (n : ℕ) (bs : List ℕ) → n < two_31 → var_int n ≡ some bs → (1 ≤ length bs) × (length bs ≤ 5)
length-var_int n bs h e =
    let (x, w, _, lo, hi) = read-write n [] h in
    let same : x ≡ bs = some-injective _ _ (sym w ∙ e) in rw⁻¹ same (lo, hi)

status_length :
    (id count text : List ℕ) (n : ℕ)
    → n < two_31
    → length text + 10 ≤ 1024 * 1024
    → var_int 0 ≡ some id
    → var_int n ≡ some count
    → (1 ≤ length (id ++ (count ++ text))) × (length (id ++ (count ++ text)) ≤ 1024 * 1024)
status_length id count text n h small w0 wn =
    let (a, b) = length-var_int 0 id (omega arith) w0 in
    let (c, d) = length-var_int n count h wn in
    rw (length-append id (count ++ text), length-append count text) (omega arith, omega arith)

status_accepted :
    (id count text : List ℕ) (n : ℕ)
    → 1 ≤ n
    → n < two_31
    → var_int 0 ≡ some id
    → var_int n ≡ some count
    → check_response (id ++ (count ++ text)) ≡ none
status_accepted id count text n lo hi w0 wn =
    let (id', count', w0', wn', accepts) = check_response-accepts n text lo hi in
    let a : id' ≡ id = some-injective _ _ (sym w0' ∙ w0) in
    let b : count' ≡ count = some-injective _ _ (sym wn' ∙ wn) in rw⁻¹ (a, b) accepts

packet-read :
    (payload rest packet : List ℕ)
    → 1 ≤ length payload
    → length payload ≤ 1024 * 1024
    → write_packet payload ≡ some packet
    → read_packet (packet ++ rest) ≡ some (payload, rest)
packet-read payload rest packet low high w =
    let (bytes, w', back) = read-write_packet payload rest low high in
    let same : bytes ≡ packet = some-injective _ _ (sym w' ∙ w) in rw⁻¹ same back

module _ (split : List ℕ → List ℕ × List ℕ) (scan : List ℕ → Option ℕ) where
  -- The port of an address, 25565 where it names none.
  unfoldable pub port_of : List ℕ → ℕ
  port_of addr = elim (scan (split addr).1) [ none ↦ 25565 | some p ↦ p ]

  unfoldable pub mc_ping_addr_string : Option Connection → List ℕ → Option (Option PingError)
  unfolding port_of
  mc_ping_addr_string none addr = some (some dial_failed)
  mc_ping_addr_string (some c) addr = mc_ping_conn (split addr).0 (port_of addr) c.sent c.answer

  -- Where every write succeeds, the checks on the first packet of the answer decide.
  exchanged :
      (addr answer packet rest : List ℕ) (sent : ℕ → Bool)
      → length (split addr).0 + 22 ≤ 1024 * 1024
      → port_of addr < 65536
      → ((i : ℕ) → sent i ≡ true)
      → read_packet answer ≡ some (packet, rest)
      → mc_ping_addr_string (some (record { sent = sent; answer = answer })) addr
        ≡ some (check_response packet)
  unfolding mc_ping_addr_string mc_ping_conn
  exchanged addr answer packet rest sent fits port all read =
      let (payload, built, low, high, _) =
        hello-parsed (split addr).0 (port_of addr) (omega arith) port in
      let (hello, written, _) = read-write_packet payload [] low (omega arith) in
      let (request, w, _, lo, hi) = read-write 0 [] (omega arith) in
      let (second, written', _) = read-write_packet request [] lo (omega arith) in
      rw (mc_ping_addr_string, mc_ping_conn, built, written)
        (rw (all 0, all 1) (rw (w, written') (rw (all 2, all 3) (rw read refl))))

  -- A server that answers with a status packet, id 0 and a text that is not empty, is up: the ping
  -- returns nil, whatever it sends behind the packet, as long as every write succeeds, the text is
  -- at least ten bytes shorter than 2^20, the address fits a packet and the port two bytes.
  pub ping_up :
      (addr text rest id count packet : List ℕ) (n : ℕ) (sent : ℕ → Bool)
      → length (split addr).0 + 22 ≤ 1024 * 1024
      → port_of addr < 65536
      → ((i : ℕ) → sent i ≡ true)
      → 1 ≤ n
      → n < two_31
      → length text + 10 ≤ 1024 * 1024
      → var_int 0 ≡ some id
      → var_int n ≡ some count
      → write_packet (id ++ (count ++ text)) ≡ some packet
      → mc_ping_addr_string (some (record { sent = sent; answer = packet ++ rest })) addr
        ≡ some none
  ping_up addr text rest id count packet n sent fits port all lo hi small w0 wn written =
      let (low, high) = status_length id count text n hi small w0 wn in
      let back = packet-read (id ++ (count ++ text)) rest packet low high written in
      exchanged addr (packet ++ rest) (id ++ (count ++ text)) rest sent fits port all back
      ∙ ap some (status_accepted id count text n lo hi w0 wn)
