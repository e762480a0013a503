-- ===== src/Buffers/Queues/Groups.antt =====
-- buffer_queues.py: a queue of buffers as groups of messages, one group to a buffer.
use volga.Prelude.{
  ℕ, zero, suc, ◌≤◌, ◌<◌, ◌≡◌, refl, sym, ap, ◌∙◌, some, List, [], ◌∷◌, ◌++◌, length, take, drop,
  get_elem?, append_assoc, append-nil, Result, ok, ◌>>=◌, Result-cases, inl, inr, arith,
}
use volga.Buffers.Varint.{Bytes}
use volga.Buffers.Serializer.{Text, get_payload}
use volga.Buffers.Serializer.Layout.{layout, get_payload-layout}
use volga.Buffers.Queues.{last_buffer, set_last}

-- A buffer's id and its messages, with their ids.
abbrev pub Group : Type 0
Group = ℕ × List (ℕ × Bytes)

abbrev pub messages : List Group → List (ℕ × Bytes)
messages [] = []
messages ((id, msgs) ∷ gs) = msgs ++ messages gs

abbrev pub buffers : Text → List Group → List Bytes
buffers channel_id [] = []
buffers channel_id ((id, msgs) ∷ gs) = layout channel_id id msgs ∷ buffers channel_id gs

-- One more message in the last group.
abbrev pub grow_last : List Group → ℕ × Bytes → List Group
grow_last [] e = []
grow_last ((id, msgs) ∷ []) e = (id, msgs ++ e ∷ []) ∷ []
grow_last (g ∷ h ∷ gs) e = g ∷ grow_last (h ∷ gs) e

pub messages-append : (gs hs : List Group) → messages (gs ++ hs) ≡ messages gs ++ messages hs
messages-append [] hs = refl
messages-append ((id, msgs) ∷ gs) hs =
    rw (messages-append gs hs) (sym (append_assoc msgs (messages gs) (messages hs)))

pub buffers-append :
    (c : Text) (gs hs : List Group) → buffers c (gs ++ hs) ≡ buffers c gs ++ buffers c hs
buffers-append c [] hs = refl
buffers-append c ((id, msgs) ∷ gs) hs = ap (◌∷◌ (layout c id msgs)) (buffers-append c gs hs)

pub length-buffers : (c : Text) (gs : List Group) → length (buffers c gs) ≡ length gs
length-buffers c [] = refl
length-buffers c ((id, msgs) ∷ gs) = ap suc (length-buffers c gs)

pub drop-buffers :
    (c : Text) (n : ℕ) (gs : List Group) → drop n (buffers c gs) ≡ buffers c (drop n gs)
drop-buffers c zero gs = refl
drop-buffers c (suc n) [] = refl
drop-buffers c (suc n) ((id, msgs) ∷ gs) = drop-buffers c n gs

pub take-buffers :
    (c : Text) (n : ℕ) (gs : List Group) → take n (buffers c gs) ≡ buffers c (take n gs)
take-buffers c zero gs = refl
take-buffers c (suc n) [] = refl
take-buffers c (suc n) ((id, msgs) ∷ gs) = ap (◌∷◌ (layout c id msgs)) (take-buffers c n gs)

-- Behind an index in the list, a message in the last group is the last message; a new group too.
pub grow_last-behind :
    (i : ℕ) (gs : List Group) (e : ℕ × Bytes)
    → i < length gs
    → messages (drop i (grow_last gs e)) ≡ messages (drop i gs) ++ e ∷ []
grow_last-behind i [] e h = absurd (omega arith)
grow_last-behind zero ((id, msgs) ∷ []) e h = rw (append-nil (msgs ++ e ∷ []), append-nil msgs)
grow_last-behind (suc i) ((id, msgs) ∷ []) e h = absurd (omega arith)
grow_last-behind zero ((id, msgs) ∷ g ∷ gs) e h =
    rw (grow_last-behind zero (g ∷ gs) e (omega arith))
      (sym (append_assoc msgs (messages (g ∷ gs)) (e ∷ [])))
grow_last-behind (suc i) ((id, msgs) ∷ g ∷ gs) e h = grow_last-behind i (g ∷ gs) e (omega arith)

pub length-grow_last : (gs : List Group) (e : ℕ × Bytes) → length (grow_last gs e) ≡ length gs
length-grow_last [] e = refl
length-grow_last ((id, msgs) ∷ []) e = refl
length-grow_last (f ∷ g ∷ gs) e = ap suc (length-grow_last (g ∷ gs) e)

pub drop-append_le {ℓ} :
    {A : Type ℓ} (i : ℕ) (xs ys : List A) → i ≤ length xs → drop i (xs ++ ys) ≡ drop i xs ++ ys
drop-append_le zero xs ys h = refl
drop-append_le (suc i) [] ys h = absurd (omega arith)
drop-append_le (suc i) (x ∷ xs) ys h = drop-append_le i xs ys (omega arith)

-- The last buffer is that of the last group, and a longer one in its place that of the longer group.
pub last_buffer-buffers :
    (c : Text) (gs : List Group) {last : Bytes}
    → last_buffer (buffers c gs) ≡ some last
    → (id : ℕ) × (msgs : List (ℕ × Bytes)) × (last ≡ layout c id msgs)
      × (0 < length gs)
      × ((e : ℕ × Bytes)
          → set_last (buffers c gs) (layout c id (msgs ++ e ∷ [])) ≡ buffers c (grow_last gs e))
unfolding last_buffer set_last
last_buffer-buffers c [] h = absurd (cc)
last_buffer-buffers c ((id, msgs) ∷ []) h = (id, msgs, cc, omega arith, λ e. refl)
last_buffer-buffers c ((j, other) ∷ (i, ms) ∷ gs) h =
    let (id, msgs, is_last, some_left, grown) = last_buffer-buffers c ((i, ms) ∷ gs) h in
    (id, msgs, is_last, omega arith, λ e. ap (◌∷◌ (layout c j other)) (grown e))

-- What the buffers hold, read one after the other.
unfoldable pub read_all : List Bytes → Result (List (ℕ × Bytes))
read_all [] = ok []
read_all (b ∷ bs) = do payload ← get_payload b; rest ← read_all bs; ok (payload ++ rest)

pub read_all-buffers :
    (c : Text) (gs : List Group) → length c ≤ 16 → read_all (buffers c gs) ≡ ok (messages gs)
unfolding read_all
read_all-buffers c [] fits = refl
read_all-buffers c ((id, msgs) ∷ gs) fits =
    rw (get_payload-layout c id fits msgs, read_all-buffers c gs fits) refl

pub read_all-append :
    (bs cs : List Bytes) {xs ys : List (ℕ × Bytes)}
    → read_all bs ≡ ok xs
    → read_all cs ≡ ok ys
    → read_all (bs ++ cs) ≡ ok (xs ++ ys)
unfolding read_all
read_all-append [] cs {xs} {ys} h k =
    let none_read : [] ≡ xs = cc in rw k (ap (λ (r : List (ℕ × Bytes)). ok (r ++ ys)) none_read)
read_all-append (b ∷ bs) cs {xs} {ys} h k = elim (Result-cases (get_payload b)) [
  | inl failed ↦ absurd (cc (rw (failed, read_all) at h))
  | inr (payload, read) ↦ elim (Result-cases (read_all bs)) [
    | inl failed ↦ absurd (cc (rw (read, failed, read_all) at h))
    | inr (rest, read_rest) ↦
        let whole : payload ++ rest ≡ xs = cc (rw (read, read_rest, read_all) at h) in
        rw (read, read_all-append bs cs read_rest k, read_all)
          (ap ok
            (sym (append_assoc payload rest ys) ∙ ap (λ (r : List (ℕ × Bytes)). r ++ ys) whole))
  ]
]

pub get_elem?-buffers :
    (c : Text) (i : ℕ) (gs : List Group) {b : Bytes}
    → get_elem? (buffers c gs) i ≡ some b
    → (id : ℕ) × (msgs : List (ℕ × Bytes)) × (b ≡ layout c id msgs)
      × (i < length gs)
      × (drop i gs ≡ (id, msgs) ∷ drop (suc i) gs)
get_elem?-buffers c i [] h = absurd (cc)
get_elem?-buffers c zero ((id, msgs) ∷ gs) h = (id, msgs, cc, omega arith, refl)
get_elem?-buffers c (suc i) ((j, other) ∷ gs) h =
    let (id, msgs, is_layout, inside, next) = get_elem?-buffers c i gs h in
    (id, msgs, is_layout, omega arith, next)
