-- ===== src/Minecraft/VarInt.antt =====
-- `writeVarInt`, `readVarInt`: seven bits a byte, the lowest first, the top bit set on all but the
-- last byte.
pub mod RoundTrip
use rms_gate.Base.{
  ℕ, zero, suc, ◌+◌, ◌-◌, ◌*◌, ◌/◌, ◌%◌, ◌^◌, true, false, Option, none, some, List, [], ◌∷◌, ltb,
  leb, ◌==◌, if◌then◌else◌, ◌>>=◌, two_31, two_32,
}
use Prim.Native.Nat.{bit_and, bit_or}

-- `value >>= 7` on an int32 keeps the sign.
unfoldable pub shr7_32 : ℕ → ℕ
shr7_32 v = if ltb v two_31 then v / 128 else v / 128 + (two_32 - two_32 / 128)

-- The loop of `writeVarInt`, with fuel: the bytes written, `none` where the fuel runs out.
unfoldable pub write_var_int : ℕ → ℕ → Option (List ℕ)
unfolding shr7_32
write_var_int zero v = none
write_var_int (suc fuel) v =
    let b = bit_and v 0x7f in
    let v' = shr7_32 v in
    elim (v' == 0) [
      | true ↦ some (b ∷ [])
      | false ↦ write_var_int fuel v' >>= λ rest. some (bit_or b 0x80 ∷ rest)
    ]

pub data ReadError : Type 0 where
  end_of_input too_big : ReadError

pub data Read {ℓ} (A : Type ℓ) : Type ℓ where
  ok : A → Read A
  err : ReadError → Read A

-- The loop of `readVarInt`: the value and the rest of the input. `shift` is at most 28 where a
-- byte is added, and int32 drops the bits that go beyond it.
unfoldable pub read_loop : List ℕ → ℕ → ℕ → Read (ℕ × List ℕ)
read_loop [] result shift = err end_of_input
read_loop (b ∷ rest) result shift =
    let result' = bit_or result (bit_and b 0x7f * 2 ^ shift % two_32) in
    let more = read_loop rest result' (shift + 7) in
    if bit_and b 0x80 == 0
    then ok (result', rest)
    else if leb 32 (shift + 7)
    then err too_big
    else more

unfoldable pub read_var_int : List ℕ → Read (ℕ × List ℕ)
unfolding read_loop
read_var_int src = read_loop src 0 0
