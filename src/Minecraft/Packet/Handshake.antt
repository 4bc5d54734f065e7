-- ===== src/Minecraft/Packet/Handshake.antt =====
-- The handshake that is sent, as a server reads it.
use rms_gate.Base.{
  ℕ, ◌+◌, ◌*◌, ◌/◌, ◌%◌, ◌≤◌, ◌<◌, ◌≡◌, refl, sym, ap, ◌∙◌, Option, none, some, List, [], ◌∷◌, ◌++◌,
  arith, ltb, if◌then◌else◌, ◌>>=◌, length, length-append, take, drop, two_31, two_32,
}
use mathlib.Core.List.{append_assoc, append-nil}
use rms_gate.Minecraft.VarInt.{write_var_int, ok, err, read_var_int}
use rms_gate.Minecraft.VarInt.RoundTrip.{read-write}
use rms_gate.Minecraft.Packet.{write_string, write_packet, read_packet, handshake}
use rms_gate.Minecraft.Packet.Exchange.{take-append, drop-append, read-write_packet}

read_value : List ℕ → Option (ℕ × List ℕ)
read_value src = elim (read_var_int src) [ ok r ↦ some r | err e ↦ none ]

-- A text with its length in front.
read_string : List ℕ → Option (List ℕ × List ℕ)
unfolding read_value
read_string src = read_value src >>= λ (r : ℕ × List ℕ).
    if ltb (length r.1) r.0 then none else some (take r.0 r.1, drop r.0 r.1)

-- Two bytes, the higher one first.
read_port : List ℕ → Option (ℕ × List ℕ)
read_port [] = none
read_port (hi ∷ []) = none
read_port (hi ∷ lo ∷ rest) = some (hi * 256 + lo, rest)

-- The fields of a handshake.
pub record Hello : Type 0 where
  pub id : ℕ
  pub protocol : ℕ
  pub address : List ℕ
  pub port : ℕ
  pub next_state : ℕ

-- The protocol's handshake, field by field, with nothing behind it.
pub parse_hello : List ℕ → Option Hello
unfolding read_value read_string read_port
parse_hello src = read_value src >>= λ (a : ℕ × List ℕ). read_value a.1 >>= λ (b : ℕ × List ℕ).
    read_string b.1 >>= λ (c : List ℕ × List ℕ). read_port c.1 >>= λ (d : ℕ × List ℕ).
    read_value d.1 >>= λ (e : ℕ × List ℕ). elim e.1 [
      | [] ↦ some (record { id = a.0; protocol = b.0; address = c.0; port = d.0; next_state = e.0 })
      | x ∷ xs ↦ none
    ]

read_value-ok : (src : List ℕ) (r : ℕ × List ℕ) → read_var_int src ≡ ok r → read_value src ≡ some r
unfolding read_value
read_value-ok src r e = rw (read_value, e) refl

read_string-written :
    (count text rest : List ℕ)
    → read_var_int (count ++ (text ++ rest)) ≡ ok (length text, text ++ rest)
    → read_string (count ++ (text ++ rest)) ≡ some (text, rest)
unfolding read_string
read_string-written count text rest e =
    rw (read_value-ok _ _ e)
      (ground (arith, length-append text rest, take-append text rest, drop-append text rest))

-- The parts of a handshake, each read with what stands behind it.
parse-fields :
    (id version count host port state : List ℕ) (p : ℕ)
    → read_port (port ++ state) ≡ some (p, state)
    → read_var_int (id ++ (version ++ ((count ++ host) ++ (port ++ state))))
      ≡ ok (0, version ++ ((count ++ host) ++ (port ++ state)))
    → read_var_int (version ++ ((count ++ host) ++ (port ++ state)))
      ≡ ok (767, (count ++ host) ++ (port ++ state))
    → read_var_int (count ++ (host ++ (port ++ state))) ≡ ok (length host, host ++ (port ++ state))
    → read_var_int state ≡ ok (1, [])
    → parse_hello (id ++ (version ++ ((count ++ host) ++ (port ++ state))))
      ≡ some (record { id = 0; protocol = 767; address = host; port = p; next_state = 1 })
unfolding parse_hello
parse-fields id version count host port state p at a b c d =
    let text =
      ap read_string (append_assoc count host (port ++ state))
      ∙ read_string-written count host (port ++ state) c in
    rw (read_value-ok _ _ a)
      (rw (read_value-ok _ _ b) (rw text (rw at (rw (read_value-ok _ _ d) refl))))

read_port-two :
    (port : ℕ) (rest : List ℕ)
    → port < 65536
    → read_port ((port / 256) ∷ (port % 256) ∷ rest) ≡ some (port, rest)
unfolding read_port
read_port-two port rest h = let e : port / 256 * 256 + port % 256 ≡ port = omega arith in rw e refl

handshake-built :
    (host id version count state : List ℕ) (port : ℕ)
    → length host < two_31
    → write_var_int 5 0 ≡ some id
    → write_var_int 5 767 ≡ some version
    → write_var_int 5 (length host) ≡ some count
    → write_var_int 5 1 ≡ some state
    → handshake host port
      ≡ some (id ++ (version ++ ((count ++ host) ++ ((port / 256) ∷ (port % 256) ∷ state))))
unfolding handshake write_string
handshake-built host id version count state port small a b c d =
    let short : length host % two_32 ≡ length host = omega arith in rw (a, b, short, c, d) refl

fields_length :
    (host id version count state : List ℕ) (x y : ℕ)
    → 1 ≤ length id
    → length id ≤ 5
    → length version ≤ 5
    → length count ≤ 5
    → length state ≤ 5
    → let payload = id ++ (version ++ ((count ++ host) ++ (x ∷ y ∷ state))) in
      (1 ≤ length payload) × (length payload ≤ length host + 22)
fields_length host id version count state x y a b c d e =
    rw
      (
        length-append id (version ++ ((count ++ host) ++ (x ∷ y ∷ state))),
        length-append version ((count ++ host) ++ (x ∷ y ∷ state)),
        length-append (count ++ host) (x ∷ y ∷ state),
        length-append count host,
      )
      (omega arith, omega arith)

-- The payload that the handshake sends, and what a server reads in it.
pub hello-parsed :
    (host : List ℕ) (port : ℕ)
    → length host < two_31
    → port < 65536
    → (payload : List ℕ) × (handshake host port ≡ some payload)
      × (1 ≤ length payload)
      × (length payload ≤ length host + 22)
      × (parse_hello payload
          ≡ some (record { id = 0; protocol = 767; address = host; port = port; next_state = 1 }))
hello-parsed host port small h =
    let two = (port / 256) ∷ (port % 256) ∷ [] in
    let (state, w1, r1, _, s1) = read-write 1 [] (omega arith) in
    let tail = two ++ state in
    let (count, wc, rc, _, sc) = read-write (length host) (host ++ tail) small in
    let (version, wv, rv, _, sv) = read-write 767 ((count ++ host) ++ tail) (omega arith) in
    let (id, w0, r0, s0, s0') = read-write 0 (version ++ ((count ++ host) ++ tail)) (omega arith) in
    let (low, high) =
      fields_length host id version count state (port / 256) (port % 256) s0 s0' sv sc s1 in
    (
      id ++ (version ++ ((count ++ host) ++ tail)),
      handshake-built host id version count state port small w0 wv wc w1,
      low,
      high,
      parse-fields id version count host two state port (read_port-two port state h) r0 rv rc
          (ap read_var_int (sym (append-nil state)) ∙ r1),
    )

-- The handshake for an address that fits a packet is read back whole, whatever is sent behind it,
-- as packet 0 of protocol 767 with the address, the port, and the next state 1.
pub handshake-read :
    (host rest : List ℕ) (port : ℕ)
    → length host + 22 ≤ 1024 * 1024
    → port < 65536
    → (payload : List ℕ) × (packet : List ℕ) × (handshake host port ≡ some payload)
      × (write_packet payload ≡ some packet)
      × (read_packet (packet ++ rest) ≡ some (payload, rest))
      × (parse_hello payload
          ≡ some (record { id = 0; protocol = 767; address = host; port = port; next_state = 1 }))
handshake-read host rest port fits h =
    let (payload, sent, low, high, parsed) = hello-parsed host port (omega arith) h in
    let (packet, written, back) = read-write_packet payload rest low (omega arith) in
    (payload, packet, sent, written, back, parsed)
