-- ===== src/Buffers/Varint.antt =====
-- volga/streaming/runtime/network_deprecated/buffer/serialization/varint.py. Bytes are a list of
-- numbers.
pub mod RoundTrip
use Prim.Native.Nat.{bit_and, bit_or}
use mathlib.Core.Logic.{dite}
use mathlib.Core.WellFounded.{Acc}
use native.Mathlib.Decide.{dec_lt}
use volga.Prelude.Wf.{lt_wf}
use volga.Prelude.{
  ℕ, ◌+◌, ◌*◌, ◌/◌, ◌^◌, ◌<◌, ◌==◌, List, [], ◌∷◌, ◌++◌, drop, Result, ok, raised, if◌then◌else◌,
  arith,
}

abbrev pub Bytes : Type 0
Bytes = List ℕ

pub fewer_bits : (number : ℕ) → 0 < number / 128 → number / 128 < number
fewer_bits number h = omega arith

-- `number >>= 7` is `number / 2 ^ 7`, which the loop's end tests. Each round makes a number smaller.
unfoldable pub encode_loop : Bytes → (number : ℕ) → Acc ◌<◌ number → Bytes
encode_loop buf number (Acc.intro _ smaller) =
    let towrite = bit_and number 0x7f in
    dite (dec_lt 0 (number / 128))
      (λ more.
        encode_loop (buf ++ bit_or towrite 0x80 ∷ []) (number / 128)
          (smaller (number / 128) (fewer_bits number more)))
      (λ _. buf ++ towrite ∷ [])

-- A number below 0 would never end the loop; the callers have ids and lengths.
unfoldable pub encode_int : ℕ → Bytes
unfolding encode_loop lt_wf dec_lt
encode_int number = encode_loop [] number (lt_wf.apply number)

-- `ord` raises on the empty slice past the end. The bytes left end the loop.
unfoldable pub decode_loop : Bytes → ℕ → ℕ → ℕ → Result (ℕ × ℕ)
decode_loop [] shift result pos = raised
decode_loop (i ∷ rest) shift result pos =
    let result' = bit_or result (bit_and i 0x7f * 2 ^ shift) in
    let more = decode_loop rest (shift + 7) result' (pos + 1) in
    if bit_and i 0x80 == 0 then ok (result', pos + 1) else more

unfoldable pub decode_bytes : Bytes → ℕ → Result (ℕ × ℕ)
unfolding decode_loop
decode_bytes b start = decode_loop (drop start b) 0 0 start
