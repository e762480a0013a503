-- ===== src/Buffers/Varint/RoundTrip.antt =====
-- varint.py: the decoder reads back what the encoder wrote, and stops behind it.
use Prim.Native.Nat.{bit_and, bit_or}
use mathlib.Core.WellFounded.{Acc}
use mathlib.Core.Logic.{dif_pos, dif_neg}
use native.Mathlib.Decide.{dec_lt}
use native.Mathlib.Nat.{div-add-mod, pow-suc}
use native.Mathlib.Bridge.{le_prop}
use native.Mathlib.Numerals.{towards_suc}
use volga.Prelude.Wf.{lt_wf}
use volga.Prelude.Bits.{bit_and-seven_bits, bit_and-top_bit, bit_or_disjoint}
use volga.Prelude.{
  ℕ, ◌+◌, ◌*◌, ◌/◌, ◌%◌, ◌^◌, ◌<◌, ◌≤◌, ◌==◌, ◌≡◌, refl, ap, ◌∙◌, [], ◌∷◌, ◌++◌, ok, length, zero,
  suc, Bool-cases, if◌then◌else◌, inl, inr, append_assoc, drop-append, arith,
}
use volga.Buffers.Varint.{Bytes, encode_loop, encode_int, decode_loop, decode_bytes, fewer_bits}

abbrev Low : ℕ → Type 0
Low n = n / 128 ≡ 0

last_group : (n : ℕ) → n / 128 ≡ 0 → bit_and n 127 ≡ n
last_group n h = omega (arith, bit_and-seven_bits n)

inner_group : (n : ℕ) → bit_or (bit_and n 127) 128 ≡ n % 128 + 128
inner_group n =
    ap (λ (g : ℕ). bit_or g 128) (bit_and-seven_bits n)
    ∙ bit_or_disjoint 7 (n % 128) 1 (omega arith)

-- The last round, and a round that is not the last.
encode_loop_last :
    (buf : Bytes) (n : ℕ) (w : Acc ◌<◌ n) → n / 128 ≡ 0 → encode_loop buf n w ≡ buf ++ n ∷ []
unfolding encode_loop
encode_loop_last buf n (Acc.intro _ smaller) low =
    rw (dif_neg (dec_lt 0 (n / 128)) (λ p. absurd (omega arith))) (rw (last_group n low))

encode_loop_more :
    (buf : Bytes) (n : ℕ) (w : Acc ◌<◌ n)
    → 0 < n / 128
    → (v : Acc ◌<◌ (n / 128)) × (encode_loop buf n w
        ≡ encode_loop (buf ++ (n % 128 + 128) ∷ []) (n / 128) v)
unfolding encode_loop
encode_loop_more buf n (Acc.intro _ smaller) p = (
  smaller (n / 128) (fewer_bits n p),
  rw (dif_pos (dec_lt 0 (n / 128)) le_prop p) (rw (inner_group n)),
)

-- The groups of seven bits of a number at most `k`, lowest first.
pub groups : ℕ → ℕ → Bytes
groups zero n = n ∷ []
groups (suc k) n = if n / 128 == 0 then n ∷ [] else (n % 128 + 128) ∷ groups k (n / 128)

encode_loop-groups :
    (k : ℕ) (buf : Bytes) (n : ℕ) (w : Acc ◌<◌ n) → n ≤ k → encode_loop buf n w ≡ buf ++ groups k n
unfolding groups
encode_loop-groups zero buf n w h = encode_loop_last buf n w (omega arith)
encode_loop-groups (suc k) buf n w h = elim (Bool-cases (n / 128 == 0)) [
  | inl low ↦ rw low (encode_loop_last buf n w (ground arith))
  | inr high ↦
      let (v, more) = encode_loop_more buf n w (ground arith) in
      rw high (
        more
        ∙ encode_loop-groups k (buf ++ (n % 128 + 128) ∷ []) (n / 128) v (omega arith)
        ∙ append_assoc buf ((n % 128 + 128) ∷ []) (groups k (n / 128)))
]

pub encode_int-groups : (n : ℕ) → encode_int n ≡ groups n n
unfolding encode_int
encode_int-groups n = encode_loop-groups n [] n (lt_wf.apply n) (omega arith)

pub groups-pos : (k n : ℕ) → 0 < length (groups k n)
unfolding groups
groups-pos zero n = omega arith
groups-pos (suc k) n = ground arith

shift_by_seven : (s : ℕ) → 2 ^ (s + 7) ≡ 128 * 2 ^ s
shift_by_seven s = simp towards_suc (simp pow-suc (omega arith))

-- `n` counts from bit `s` on: its lowest group, and the others from bit `s + 7` on.
lowest_apart : (n s : ℕ) → n % 128 * 2 ^ s + n / 128 * 2 ^ (s + 7) ≡ n * 2 ^ s
lowest_apart n s = omega (
  arith,
  ap (λ (t : ℕ). n / 128 * t) (shift_by_seven s),
  ap (λ (t : ℕ). t * 2 ^ s) (div-add-mod n 128),
)

-- The bits read so far stay below the next group.
group_fits : (g s result : ℕ) → g < 128 → result < 2 ^ s → result + g * 2 ^ s < 2 ^ (s + 7)
group_fits g s result small fits =
    let scaled : g * 2 ^ s ≤ 127 * 2 ^ s = grind arith in omega (arith, shift_by_seven s)

decode_last :
    (n : ℕ) (rest : Bytes) (s result pos : ℕ)
    → n / 128 ≡ 0
    → result < 2 ^ s
    → decode_loop (n ∷ rest) s result pos ≡ ok (result + n * 2 ^ s, pos + 1)
unfolding decode_loop
decode_last n rest s result pos low fits =
    let stop : bit_and n 128 ≡ 0 = omega (arith, bit_and-top_bit n) in
    rw (stop, last_group n low, bit_or_disjoint s result n fits) refl

decode_more :
    (g : ℕ) (rest : Bytes) (s result pos : ℕ)
    → g < 128
    → result < 2 ^ s
    → decode_loop ((g + 128) ∷ rest) s result pos
      ≡ decode_loop rest (s + 7) (result + g * 2 ^ s) (pos + 1)
unfolding decode_loop
decode_more g rest s result pos small fits =
    let go_on : bit_and (g + 128) 128 ≡ 128 = omega (arith, bit_and-top_bit (g + 128)) in
    let group : bit_and (g + 128) 127 ≡ g = omega (arith, bit_and-seven_bits (g + 128)) in
    rw (go_on, group, bit_or_disjoint s result g fits) refl

decode_loop-groups :
    (k n : ℕ) (rest : Bytes) (s result pos : ℕ)
    → n ≤ k
    → result < 2 ^ s
    → decode_loop (groups k n ++ rest) s result pos
      ≡ ok (result + n * 2 ^ s, pos + length (groups k n))
unfolding groups
decode_loop-groups zero n rest s result pos h fits =
    decode_last n rest s result pos (omega arith) fits
decode_loop-groups (suc k) n rest s result pos h fits = elim (Bool-cases (n / 128 == 0)) [
  | inl low ↦ rw low (decode_last n rest s result pos (ground arith) fits)
  | inr high ↦
      let sums : result + n % 128 * 2 ^ s + n / 128 * 2 ^ (s + 7) ≡ result + n * 2 ^ s =
        omega (arith, lowest_apart n s) in
      let lengths : pos + 1 + length (groups k (n / 128))
          ≡ pos + suc (length (groups k (n / 128))) =
        omega arith in
      rw high (
        decode_more (n % 128) (groups k (n / 128) ++ rest) s result pos (omega arith) fits
        ∙ decode_loop-groups k (n / 128) rest (s + 7) (result + n % 128 * 2 ^ s) (pos + 1)
            (omega arith) (group_fits (n % 128) s result (omega arith) fits)
        ∙ rw (sums, lengths))
]

-- Wherever it stands, `decode_bytes` reads the number that `encode_int` wrote, and returns the
-- position behind it.
pub decode_bytes-encode_int :
    (front : Bytes) (n : ℕ) (rest : Bytes)
    → decode_bytes (front ++ (encode_int n ++ rest)) (length front)
      ≡ ok (n, length front + length (encode_int n))
unfolding decode_bytes
decode_bytes-encode_int front n rest =
    rw (drop-append front (encode_int n ++ rest), encode_int-groups n)
      (decode_loop-groups n n rest 0 0 (length front) (omega arith) (omega arith) ∙ rw (scaled n))
  where
    scaled : (m : ℕ) → 0 + m * 2 ^ 0 ≡ m
    scaled m = omega arith
