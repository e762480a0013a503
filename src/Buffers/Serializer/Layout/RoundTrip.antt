-- ===== src/Buffers/Serializer/Layout/RoundTrip.antt =====
-- buffer_serializer.py: a buffer that the serializer built, message by message, reads back.
use mathlib.Core.Path.{ap₂}
use mathlib.Core.List.{reverse, reverse_aux, reverse-cons, reverse-append, reverse-reverse}
use volga.Prelude.{
  ℕ, zero, suc, ◌+◌, ◌-◌, ◌≤◌, ◌≡◌, refl, sym, ap, ◌∙◌, ◌≢◌, subst, true, false, List, [], ◌∷◌,
  ◌++◌, map, take, take-append, replicate, length, append-nil, ok, ltb, All, Bool-cases, inl, inr,
  arith,
}
use volga.Buffers.Varint.{Bytes, encode_int}
use volga.Buffers.Serializer.{
  Text, str_to_bytes, is_space, lstrip, strip, get_channel_id, serialize_msg_bytes, get_buffer_id,
  append_msg_bytes, Codec, serialize_msg, deser,
}
use volga.Buffers.Serializer.Layout.{
  entry, body, padded, layout, length-padded, length-entry, get_buffer_id-layout,
  get_payload-layout, append_msg_bytes-layout,
}

abbrev pub HasNoSpace : Text → Type 0
HasNoSpace = All (λ c. is_space c ≡ false)

All-reverse_aux {κ} : (P : ℕ → Type κ) (s t : Text) → All P s → All P t → All P (reverse_aux s t)
All-reverse_aux P [] t hs ht = ht
All-reverse_aux P (c ∷ s) t hs ht = All-reverse_aux P s (c ∷ t) hs.1 (hs.0, ht)

lstrip-spaces :
    (spaces s : Text) → All (λ c. is_space c ≡ true) spaces → lstrip (spaces ++ s) ≡ lstrip s
unfolding lstrip
lstrip-spaces [] s h = refl
lstrip-spaces (c ∷ spaces) s h = rw h.0 (lstrip-spaces spaces s h.1)

lstrip-visible : (s t : Text) → HasNoSpace s → s ≢ [] → lstrip (s ++ t) ≡ s ++ t
unfolding lstrip
lstrip-visible [] t h filled = absurd (filled refl)
lstrip-visible (c ∷ s) t h filled = rw h.0

reverse-filled : (c : ℕ) (s : Text) → reverse (c ∷ s) ≢ []
reverse-filled c s e = last (reverse s) (sym (reverse-cons c s) ∙ e)
  where
    last : (t : Text) → t ++ c ∷ [] ≢ []
    last [] e = cc
    last (d ∷ t) e = cc

strip-spaces-behind :
    (s spaces : Text) → HasNoSpace s → All (λ c. is_space c ≡ true) spaces → strip (s ++ spaces) ≡ s
unfolding strip
strip-spaces-behind [] spaces h hs =
    let gone : lstrip spaces ≡ [] =
      ap lstrip (sym (append-nil spaces)) ∙ lstrip-spaces spaces [] hs in
    rw gone (unfold lstrip in refl)
strip-spaces-behind (c ∷ s) spaces h hs =
    let front = lstrip-visible (c ∷ s) spaces h (λ e. cc) in
    let behind = All-reverse_aux (λ d. is_space d ≡ true) spaces [] hs tt in
    let visible = All-reverse_aux (λ d. is_space d ≡ false) (c ∷ s) [] h tt in
    let kept : lstrip (reverse (c ∷ s)) ≡ reverse (c ∷ s) =
      ap lstrip (sym (append-nil (reverse (c ∷ s))))
      ∙ lstrip-visible (reverse (c ∷ s)) [] visible (reverse-filled c s)
      ∙ append-nil (reverse (c ∷ s)) in
    rw
      (
        front,
        reverse-append (c ∷ s) spaces,
        lstrip-spaces (reverse spaces) (reverse (c ∷ s)) behind,
        kept,
      )
      (reverse-reverse (c ∷ s))

replicate-spaces : (n : ℕ) → All (λ c. is_space c ≡ true) (replicate n b' ')
unfolding is_space
replicate-spaces zero = tt
replicate-spaces (suc n) = (refl, replicate-spaces n)

get_channel_id-layout :
    (channel_id : Text) (buffer_id : ℕ) (msgs : List (ℕ × Bytes))
    → length channel_id ≤ 16
    → HasNoSpace channel_id
    → get_channel_id (layout channel_id buffer_id msgs) ≡ channel_id
unfolding get_channel_id layout
get_channel_id-layout c id msgs fits visible =
    let rest : Bytes = encode_int id ++ (encode_int (length (body msgs)) ++ body msgs) in
    let header : take 16 (padded c ++ rest) ≡ padded c =
      subst (λ (n : ℕ). take n (padded c ++ rest) ≡ padded c) (length-padded c fits)
        (take-append (padded c) rest) in
    rw header (
      unfold padded in
      strip-spaces-behind c (replicate (16 - length c) b' ') visible
        (replicate-spaces (16 - length c)))

-- What `serialize_msg_bytes` writes with a header, and that the channel's id and the buffer's size
-- allow for it.
pub serialize_msg_bytes-first :
    (channel_id : Text) (buffer_id : ℕ) (msg : Bytes) (msg_id buffer_size : ℕ) {b : Bytes}
    → serialize_msg_bytes channel_id buffer_id msg msg_id buffer_size true ≡ ok b
    → (length channel_id ≤ 16) × (b ≡ layout channel_id buffer_id ((msg_id, msg) ∷ []))
unfolding serialize_msg_bytes str_to_bytes
serialize_msg_bytes-first c id msg i size {b} h = elim (Bool-cases (ltb 16 (length c))) [
  | inl long ↦ absurd (cc (rw long at h))
  | inr short ↦
      elim (Bool-cases (
        ltb size (
          length msg
          + 16
          + length (encode_int id)
          + length
              (encode_int (length (encode_int i) + length (encode_int (length msg)) + length msg))
          + length (encode_int i)
          + length (encode_int (length msg))))) [
            | inl big ↦ absurd (cc (rw (short, big) at h))
            | inr fits ↦
                let one_entry : body ((i, msg) ∷ []) ≡ entry i msg =
                  unfold body in append-nil (entry i msg) in
                let same : ok b ≡ ok (layout c id ((i, msg) ∷ [])) =
                  sym (rw (short, fits) at h)
                  ∙ (unfold layout padded in
                      rw (one_entry, length-entry i msg) (unfold entry in refl)) in
                (ground arith, cc)
          ]
]

pub serialize_msg_bytes-more :
    (channel_id : Text) (buffer_id : ℕ) (msg : Bytes) (msg_id buffer_size : ℕ)
    → serialize_msg_bytes channel_id buffer_id msg msg_id buffer_size false ≡ ok (entry msg_id msg)
unfolding serialize_msg_bytes entry
serialize_msg_bytes-more c id msg i size = refl

-- A buffer takes a payload in exactly while its size allows for the bytes of both.
append_msg_bytes-room :
    (b payload : Bytes) (buffer_size : ℕ) {b' : Bytes}
    → append_msg_bytes b payload buffer_size ≡ ok b'
    → length b + length payload ≤ buffer_size
unfolding append_msg_bytes
append_msg_bytes-room b payload size h = elim (Bool-cases (ltb size (length b + length payload))) [
  | inl big ↦ absurd (cc (rw big at h))
  | inr room ↦ ground arith
]

pub append_msg_bytes-grows :
    (channel_id : Text) (buffer_id : ℕ) (msgs : List (ℕ × Bytes)) (i : ℕ) (msg : Bytes) (size : ℕ)
    → {b payload b' : Bytes} → length channel_id ≤ 16
    → b ≡ layout channel_id buffer_id msgs
    → payload ≡ entry i msg
    → append_msg_bytes b payload size ≡ ok b'
    → b' ≡ layout channel_id buffer_id (msgs ++ (i, msg) ∷ [])
append_msg_bytes-grows c id msgs i msg size {b} {payload} fits hb hp h =
    let room = append_msg_bytes-room b payload size h in
    let run = append_msg_bytes-layout c id fits msgs i msg size (
      subst (λ (x : Bytes). length x + length (entry i msg) ≤ size) hb
        (subst (λ (x : Bytes). length b + length x ≤ size) hp room)) in
    cc (run, rw (hb, hp) at h)

module _ {M : Type 0} (codec : Codec M) (channel_id : Text) (buffer_id buffer_size : ℕ) where
  -- The buffers that come from one serialized message, and from a buffer by one more message.
  pub data Built : Bytes → List (ℕ × M) → Type 0 where
    first :
        {b : Bytes} (msg_id : ℕ) (msg : M)
        → serialize_msg codec channel_id buffer_id msg msg_id buffer_size true ≡ ok b
        → Built b ((msg_id, msg) ∷ [])
    more :
        {b payload b' : Bytes} {msgs : List (ℕ × M)} (other_id msg_id : ℕ) (msg : M)
        → Built b msgs
        → serialize_msg codec channel_id other_id msg msg_id buffer_size false ≡ ok payload
        → append_msg_bytes b payload buffer_size ≡ ok b'
        → Built b' (msgs ++ (msg_id, msg) ∷ [])

  pub bytes_of : List (ℕ × M) → List (ℕ × Bytes)
  bytes_of [] = []
  bytes_of ((i, m) ∷ msgs) = (i, codec.msg_to_bytes m) ∷ bytes_of msgs

  abbrev pub messages : List (ℕ × M) → List M
  messages [] = []
  messages ((i, m) ∷ msgs) = m ∷ messages msgs

  bytes_of-append :
      (msgs : List (ℕ × M)) (i : ℕ) (m : M)
      → bytes_of (msgs ++ (i, m) ∷ []) ≡ bytes_of msgs ++ (i, codec.msg_to_bytes m) ∷ []
  unfolding bytes_of
  bytes_of-append [] i m = refl
  bytes_of-append ((j, n) ∷ msgs) i m =
      ap (◌∷◌ (j, codec.msg_to_bytes n)) (bytes_of-append msgs i m)

  Built-layout :
      {b : Bytes} {msgs : List (ℕ × M)}
      → Built b msgs
      → (length channel_id ≤ 16) × (b ≡ layout channel_id buffer_id (bytes_of msgs))
  unfolding serialize_msg bytes_of
  Built-layout (first i m h) =
      serialize_msg_bytes-first channel_id buffer_id (codec.msg_to_bytes m) i buffer_size h
  Built-layout (more {b} {payload} {b'} {msgs} other i m built hp ha) = grown (Built-layout built)
    where
      same_payload : payload ≡ entry i (codec.msg_to_bytes m)
      same_payload =
          cc (hp, serialize_msg_bytes-more channel_id other (codec.msg_to_bytes m) i buffer_size)

      grown :
          (length channel_id ≤ 16) × (b ≡ layout channel_id buffer_id (bytes_of msgs))
          → (length channel_id ≤ 16)
            × (b' ≡ layout channel_id buffer_id (bytes_of (msgs ++ (i, m) ∷ [])))
      grown (fits, is_layout) = (
        fits,
        rw (bytes_of-append msgs i m) (
            append_msg_bytes-grows channel_id buffer_id (bytes_of msgs) i (codec.msg_to_bytes m)
              buffer_size fits is_layout same_payload ha),
      )

  read_back :
      ((m : M) → codec.bytes_to_msg (codec.msg_to_bytes m) ≡ m)
      → (msgs : List (ℕ × M))
      → map (λ ((msg_id, msg) : ℕ × Bytes). codec.bytes_to_msg msg) (bytes_of msgs) ≡ messages msgs
  unfolding bytes_of
  read_back inverse [] = refl
  read_back inverse ((i, m) ∷ msgs) = ap₂ ◌∷◌ (inverse m) (read_back inverse msgs)

  -- Where the messages' codec reads back what it wrote and the channel id has no space, a buffer that
  -- was built from messages gives back each of them in order, its id and its channel.
  pub buffer_round_trip :
      {b : Bytes} {msgs : List (ℕ × M)}
      → ((m : M) → codec.bytes_to_msg (codec.msg_to_bytes m) ≡ m)
      → HasNoSpace channel_id
      → Built b msgs
      → (deser codec b ≡ ok (messages msgs))
        × (get_buffer_id b ≡ ok buffer_id)
        × (get_channel_id b ≡ channel_id)
  unfolding deser
  buffer_round_trip {b} {msgs} inverse visible built =
      let (fits, is_layout) = Built-layout built in
      rw is_layout (
        rw (get_payload-layout channel_id buffer_id fits (bytes_of msgs))
            (ap ok (read_back inverse msgs)),
        get_buffer_id-layout channel_id buffer_id fits (bytes_of msgs),
        get_channel_id-layout channel_id buffer_id (bytes_of msgs) fits visible,
      )
