-- ===== src/Minecraft/Packet/Exchange.antt =====
-- Packets that are written and read back, and answers that are accepted.
use rms_gate.Base.{
  ℕ, ◌*◌, ◌%◌, ◌≤◌, ◌<◌, ◌≡◌, refl, ap, none, some, List, [], ◌∷◌, ◌++◌, arith, length,
  length-append, take, drop, two_31, two_32,
}
use mathlib.Core.List.{append_assoc}
use rms_gate.Minecraft.VarInt.{write_var_int, ok, read_var_int}
use rms_gate.Minecraft.VarInt.RoundTrip.{read-write}
use rms_gate.Minecraft.Packet.{var_int, write_packet, read_packet, check_response}

pub take-append : (xs ys : List ℕ) → take (length xs) (xs ++ ys) ≡ xs
take-append [] ys = refl
take-append (x ∷ xs) ys = ap (◌∷◌ x) (take-append xs ys)

pub drop-append : (xs ys : List ℕ) → drop (length xs) (xs ++ ys) ≡ ys
drop-append [] ys = refl
drop-append (x ∷ xs) ys = drop-append xs ys

framed :
    (header payload rest : List ℕ)
    → 1 ≤ length payload
    → length payload ≤ 1024 * 1024
    → write_var_int 5 (length payload) ≡ some header
    → read_var_int (header ++ (payload ++ rest)) ≡ ok (length payload, payload ++ rest)
    → (write_packet payload ≡ some (header ++ payload))
      × (read_packet ((header ++ payload) ++ rest) ≡ some (payload, rest))
unfolding write_packet read_packet
framed header payload rest lo hi w r =
    let small : length payload % two_32 ≡ length payload = omega arith in
    (
      rw (small, w),
      rw (append_assoc header payload rest, r, read_packet)
          (ground (
            arith,
            length-append payload rest,
            take-append payload rest,
            drop-append payload rest,
          )),
    )

-- A payload of 1 to 2 ^ 20 bytes is read back whole, whatever follows the packet.
pub read-write_packet :
    (payload rest : List ℕ)
    → 1 ≤ length payload
    → length payload ≤ 1024 * 1024
    → (bs : List ℕ) × (write_packet payload ≡ some bs)
      × (read_packet (bs ++ rest) ≡ some (payload, rest))
read-write_packet payload rest lo hi =
    let (header, w, r, _, _) = read-write (length payload) (payload ++ rest) (omega arith) in
    let (written, back) = framed header payload rest lo hi w r in (header ++ payload, written, back)

-- A packet with the id 0 and the text length `n`, behind which anything may stand.
accepted :
    (id count text : List ℕ) (n : ℕ)
    → 1 ≤ n
    → n < two_31
    → read_var_int (id ++ (count ++ text)) ≡ ok (0, count ++ text)
    → read_var_int (count ++ text) ≡ ok (n, text)
    → check_response (id ++ (count ++ text)) ≡ none
unfolding check_response
accepted id count text n lo hi e f = rw (e, check_response) (rw (f, check_response) (ground arith))

-- Whoever answers with a status packet, id 0 and a text that is not empty, is taken to be up.
pub check_response-accepts :
    (n : ℕ) (text : List ℕ)
    → 1 ≤ n
    → n < two_31
    → (id : List ℕ) × (count : List ℕ) × (var_int 0 ≡ some id)
      × (var_int n ≡ some count)
      × (check_response (id ++ (count ++ text)) ≡ none)
check_response-accepts n text lo hi =
    let (count, w, r, _, _) = read-write n text hi in
    let (id, w0, r0, _, _) = read-write 0 (count ++ text) (omega arith) in
    (id, count, w0, w, accepted id count text n lo hi r0 r)
