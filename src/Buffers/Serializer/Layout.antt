-- ===== src/Buffers/Serializer/Layout.antt =====
-- buffer_serializer.py: what a buffer holds, part by part, and that every reader finds its part.
pub mod RoundTrip
use volga.Prelude.{
  ℕ, zero, suc, ◌+◌, ◌-◌, ◌≤◌, ◌<◌, ◌≡◌, refl, sym, ap, ◌∙◌, subst, ◌==◌, Bool, true, false, none,
  some, List, [], ◌∷◌, ◌++◌, take, drop, drop-append, take-append, replicate, length, length-append,
  length-replicate, append_assoc, append-nil, Result, ok, raised, ◌>>=◌, if◌then◌else◌, ltb, arith,
}
use volga.Buffers.Varint.{Bytes, encode_int, decode_bytes}
use volga.Buffers.Varint.RoundTrip.{decode_bytes-encode_int, encode_int-groups, groups-pos}
use volga.Buffers.Serializer.{
  Text, channel_id_header_length, str_to_bytes, serialize_msg_bytes, get_buffer_id_and_offset,
  get_buffer_id, get_payload_size, read_messages, get_payload, append_msg_bytes,
}

pub entry : ℕ → Bytes → Bytes
entry msg_id msg = encode_int msg_id ++ (encode_int (length msg) ++ msg)

pub body : List (ℕ × Bytes) → Bytes
body [] = []
body ((msg_id, msg) ∷ rest) = entry msg_id msg ++ body rest

pub padded : Text → Bytes
padded channel_id = channel_id ++ replicate (16 - length channel_id) b' '

pub layout : Text → ℕ → List (ℕ × Bytes) → Bytes
layout channel_id buffer_id msgs =
    padded channel_id ++ (encode_int buffer_id ++ (encode_int (length (body msgs)) ++ body msgs))

pub length-padded : (channel_id : Text) → length channel_id ≤ 16 → length (padded channel_id) ≡ 16
unfolding padded
length-padded c h = omega (
  arith,
  length-append c (replicate (16 - length c) b' '),
  length-replicate {A = ℕ} (16 - length c) b' ',
)

length-encode_int : (n : ℕ) → 0 < length (encode_int n)
length-encode_int n = rw (encode_int-groups n) (groups-pos n n)

pub length-entry :
    (msg_id : ℕ) (msg : Bytes)
    → length (entry msg_id msg)
      ≡ length (encode_int msg_id) + length (encode_int (length msg)) + length msg
unfolding entry
length-entry msg_id msg = omega (
  arith,
  length-append (encode_int msg_id) (encode_int (length msg) ++ msg),
  length-append (encode_int (length msg)) msg,
)

body-append :
    (msgs : List (ℕ × Bytes)) (msg_id : ℕ) (msg : Bytes)
    → body (msgs ++ (msg_id, msg) ∷ []) ≡ body msgs ++ entry msg_id msg
unfolding body
body-append [] msg_id msg = append-nil (entry msg_id msg)
body-append ((i, m) ∷ rest) msg_id msg =
    rw (body-append rest msg_id msg) (sym (append_assoc (entry i m) (body rest) (entry msg_id msg)))

-- A number that stands behind `front` is read at the length of `front`.
reads :
    (front : Bytes) (n : ℕ) (rest b : Bytes) (pos : ℕ)
    → b ≡ front ++ (encode_int n ++ rest)
    → pos ≡ length front
    → decode_bytes b pos ≡ ok (n, pos + length (encode_int n))
reads front n rest b pos hb hp = rw (hb, hp) (decode_bytes-encode_int front n rest)

module _ (channel_id : Text) (buffer_id : ℕ) (fits : length channel_id ≤ 16) where
  get_buffer_id_and_offset-layout :
      (msgs : List (ℕ × Bytes))
      → get_buffer_id_and_offset (layout channel_id buffer_id msgs)
        ≡ ok (buffer_id, 16 + length (encode_int buffer_id))
  unfolding get_buffer_id_and_offset layout
  get_buffer_id_and_offset-layout msgs =
      reads (padded channel_id) buffer_id (encode_int (length (body msgs)) ++ body msgs) _ 16 refl
        (sym (length-padded channel_id fits))

  pub get_buffer_id-layout :
      (msgs : List (ℕ × Bytes)) → get_buffer_id (layout channel_id buffer_id msgs) ≡ ok buffer_id
  unfolding get_buffer_id
  get_buffer_id-layout msgs = rw (get_buffer_id_and_offset-layout msgs) refl

  get_payload_size-layout :
      (msgs : List (ℕ × Bytes))
      → get_payload_size (layout channel_id buffer_id msgs)
        ≡ ok (
          length (body msgs),
          16 + length (encode_int buffer_id) + length (encode_int (length (body msgs))),
        )
  unfolding get_payload_size
  get_payload_size-layout msgs = rw (get_buffer_id_and_offset-layout msgs) (
      reads (padded channel_id ++ encode_int buffer_id) (length (body msgs)) (body msgs) _
        (16 + length (encode_int buffer_id))
        (unfold layout in
          sym (
            append_assoc (padded channel_id) (encode_int buffer_id)
              (encode_int (length (body msgs)) ++ body msgs)))
        (omega (
          arith,
          length-append (padded channel_id) (encode_int buffer_id),
          length-padded channel_id fits,
        )))

-- One round of the loop: the message that stands behind `front`.
read_one :
    (rounds : ℕ) (front : Bytes) (i : ℕ) (m rest b : Bytes) (payload_end : ℕ)
    → (res : List (ℕ × Bytes)) → b ≡ front ++ (entry i m ++ rest)
    → length front < payload_end
    → read_messages (suc rounds) b (length front) payload_end res
      ≡ read_messages rounds b (length (front ++ entry i m)) payload_end (res ++ (i, m) ∷ [])
unfolding read_messages
read_one rounds front i m rest b payload_end res hb inside =
    let more : ltb (length front) payload_end ≡ true = ground arith in
    let id_end = length front + length (encode_int i) in
    let size_end = id_end + length (encode_int (length m)) in
    let at_size : id_end ≡ length (front ++ encode_int i) =
      omega (arith, length-append front (encode_int i)) in
    let at_msg : size_end ≡ length (front ++ (encode_int i ++ encode_int (length m))) = omega (
      arith,
      length-append front (encode_int i ++ encode_int (length m)),
      length-append (encode_int i) (encode_int (length m)),
    ) in
    let end : size_end + length m ≡ length (front ++ entry i m) =
      omega (arith, length-append front (entry i m), length-entry i m) in
    let b_id : b ≡ front ++ (encode_int i ++ (encode_int (length m) ++ (m ++ rest))) =
      hb ∙ (unfold entry in simp append_assoc) in
    let b_size : b ≡ (front ++ encode_int i) ++ (encode_int (length m) ++ (m ++ rest)) =
      b_id ∙ simp append_assoc in
    let b_msg : b ≡ (front ++ (encode_int i ++ encode_int (length m))) ++ (m ++ rest) =
      b_id ∙ simp append_assoc in
    let behind : drop size_end b ≡ m ++ rest =
      rw (b_msg, at_msg)
        (drop-append (front ++ (encode_int i ++ encode_int (length m))) (m ++ rest)) in
    rw
      (
        more,
        reads front i (encode_int (length m) ++ (m ++ rest)) b (length front) b_id refl,
        reads (front ++ encode_int i) (length m) (m ++ rest) b id_end b_size at_size,
        behind,
        take-append m rest,
        end,
      )
      refl

-- The messages of a body are read one after the other.
read_messages-body :
    (msgs : List (ℕ × Bytes)) (rounds : ℕ) (front b : Bytes) (payload_end : ℕ)
    → (res : List (ℕ × Bytes)) → b ≡ front ++ body msgs
    → payload_end ≡ length front + length (body msgs)
    → length (body msgs) ≤ rounds
    → read_messages rounds b (length front) payload_end res ≡ ok (res ++ msgs)
unfolding body
read_messages-body [] rounds front b payload_end res hb he h =
    let done : ltb (length front) payload_end ≡ false = ground arith in
    rw (append-nil res)
      (elim rounds as (λ k. read_messages k b (length front) payload_end res ≡ ok res) [
        | zero ↦ unfold read_messages in refl
        | suc k ↦ unfold read_messages in rw done
      ])
read_messages-body ((i, m) ∷ msgs) zero front b payload_end res hb he h =
    absurd
      (omega (arith, length-append (entry i m) (body msgs), length-entry i m, length-encode_int i))
read_messages-body ((i, m) ∷ msgs) (suc rounds) front b payload_end res hb he h =
    let size = length-append (entry i m) (body msgs) in
    read_one rounds front i m (body msgs) b payload_end res hb
      (omega (arith, size, length-entry i m, length-encode_int i))
    ∙ read_messages-body msgs rounds (front ++ entry i m) b payload_end (res ++ (i, m) ∷ [])
        (hb ∙ sym (append_assoc front (entry i m) (body msgs)))
        (omega (arith, size, length-append front (entry i m)))
        (omega (arith, size, length-entry i m, length-encode_int i))
    ∙ ap ok (append_assoc res ((i, m) ∷ []) msgs)

module _ (channel_id : Text) (buffer_id : ℕ) (fits : length channel_id ≤ 16) where
  header_end : (msgs : List (ℕ × Bytes)) → ℕ
  header_end msgs = 16 + length (encode_int buffer_id) + length (encode_int (length (body msgs)))

  -- The front of a buffer, up to its payload.
  front_of : List (ℕ × Bytes) → Bytes
  front_of msgs = padded channel_id ++ (encode_int buffer_id ++ encode_int (length (body msgs)))

  length-front_of : (msgs : List (ℕ × Bytes)) → length (front_of msgs) ≡ header_end msgs
  unfolding front_of header_end
  length-front_of msgs = omega (
    arith,
    length-append (padded channel_id) (encode_int buffer_id ++ encode_int (length (body msgs))),
    length-append (encode_int buffer_id) (encode_int (length (body msgs))),
    length-padded channel_id fits,
  )

  layout-front :
      (msgs : List (ℕ × Bytes)) → layout channel_id buffer_id msgs ≡ front_of msgs ++ body msgs
  unfolding layout front_of
  layout-front msgs = simp append_assoc

  pub get_payload-layout :
      (msgs : List (ℕ × Bytes)) → get_payload (layout channel_id buffer_id msgs) ≡ ok msgs
  unfolding get_payload header_end
  get_payload-layout msgs = rw (get_payload_size-layout channel_id buffer_id fits msgs) (
      subst
        (λ (pos : ℕ).
          read_messages (length (body msgs)) (layout channel_id buffer_id msgs) pos
            (pos + length (body msgs)) []
          ≡ ok msgs)
        (length-front_of msgs)
        (read_messages-body msgs (length (body msgs)) (front_of msgs) _ _ [] (layout-front msgs)
          refl (omega arith)))

  take_start :
      (msgs : List (ℕ × Bytes))
      → take (16 + length (encode_int buffer_id)) (layout channel_id buffer_id msgs)
        ≡ padded channel_id ++ encode_int buffer_id
  take_start msgs =
      let start : Bytes = padded channel_id ++ encode_int buffer_id in
      let rest : Bytes = encode_int (length (body msgs)) ++ body msgs in
      let at : 16 + length (encode_int buffer_id) ≡ length start = omega (
        arith,
        length-append (padded channel_id) (encode_int buffer_id),
        length-padded channel_id fits,
      ) in
      let whole : layout channel_id buffer_id msgs ≡ start ++ rest =
        unfold layout in sym (append_assoc (padded channel_id) (encode_int buffer_id) rest) in
      rw (at, whole) (take-append start rest)

  drop_header :
      (msgs : List (ℕ × Bytes))
      → drop
          (16 + length (encode_int buffer_id) + length (encode_int (length (body msgs))))
          (layout channel_id buffer_id msgs)
        ≡ body msgs
  unfolding header_end
  drop_header msgs =
      rw (sym (length-front_of msgs), layout-front msgs) (drop-append (front_of msgs) (body msgs))

  layout-grown :
      (msgs : List (ℕ × Bytes)) (msg_id : ℕ) (msg : Bytes)
      → (padded channel_id ++ encode_int buffer_id)
          ++ (encode_int (length (body msgs) + length (entry msg_id msg))
              ++ (body msgs ++ entry msg_id msg))
        ≡ layout channel_id buffer_id (msgs ++ (msg_id, msg) ∷ [])
  unfolding layout
  layout-grown msgs msg_id msg =
      let size : length (body msgs) + length (entry msg_id msg)
          ≡ length (body msgs ++ entry msg_id msg) =
        sym (length-append (body msgs) (entry msg_id msg)) in
      rw (body-append msgs msg_id msg, size)
        (append_assoc (padded channel_id) (encode_int buffer_id)
          (encode_int (length (body msgs ++ entry msg_id msg)) ++ (body msgs ++ entry msg_id msg)))

  -- A payload that is put behind a buffer is one more message of it.
  pub append_msg_bytes-layout :
      (msgs : List (ℕ × Bytes)) (msg_id : ℕ) (msg : Bytes) (buffer_size : ℕ)
      → length (layout channel_id buffer_id msgs) + length (entry msg_id msg) ≤ buffer_size
      → append_msg_bytes (layout channel_id buffer_id msgs) (entry msg_id msg) buffer_size
        ≡ ok (layout channel_id buffer_id (msgs ++ (msg_id, msg) ∷ []))
  unfolding append_msg_bytes
  append_msg_bytes-layout msgs msg_id msg buffer_size room =
      let allowed : ltb buffer_size
            (length (layout channel_id buffer_id msgs) + length (entry msg_id msg))
          ≡ false =
        ground arith in
      rw
        (
          allowed,
          get_buffer_id_and_offset-layout channel_id buffer_id fits msgs,
          get_payload_size-layout channel_id buffer_id fits msgs,
        )
        (rw (take_start msgs, drop_header msgs) (ap ok (layout-grown msgs msg_id msg)))
