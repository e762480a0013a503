-- ===== src/Transfer/Reader/Delivery/Drained.antt =====
-- data_reader.py: the loop over the sequential buffers puts all of them in the output queue that there
-- is memory for; its rounds are enough.
use volga.Prelude.{
  nat_eq, ℕ, zero, suc, ◌+◌, ◌≤◌, ◌<◌, ◌≡◌, refl, ap, ◌∙◌, subst, ◌==◌, true, false, List, [], ◌∷◌,
  length, ◌⊎◌, Bool-cases, Option-cases, inl, inr, arith,
}
use volga.Prelude.Dict
use volga.Prelude.Dict.{Dict}
use volga.Buffers.Varint.{Bytes}
use volga.Buffers.Serializer.{Text}
use volga.Buffers.Tracker.{BufferMemoryTracker, try_acquire}
use volga.Transfer.Reader.{DataReader, Sequential, put_next, put_in_order, delete_all, accept}

length-delete :
    (k : ℕ) (d : Dict ℕ Bytes) → Dict.has k d ≡ true → length (Dict.delete k d) + 1 ≡ length d
unfolding Dict.has Dict.delete
length-delete k [] h = absurd (cc)
length-delete k ((j, b) ∷ d) h = elim (Bool-cases (j == k)) [
  | inl same ↦ rw same (omega arith)
  | inr other ↦ rw other (omega (arith, length-delete k d (rw other at h)))
]

has-delete_ne :
    (k j : ℕ) (d : Dict ℕ Bytes) → (k == j) ≡ false → Dict.has j (Dict.delete k d) ≡ Dict.has j d
unfolding Dict.has Dict.delete
has-delete_ne k j [] h = refl
has-delete_ne k j ((i, b) ∷ d) h = ground (arith, has-delete_ne k j d h)

has-delete-false :
    (k j : ℕ) (d : Dict ℕ Bytes) → Dict.has j d ≡ false → Dict.has j (Dict.delete k d) ≡ false
unfolding Dict.has Dict.delete
has-delete-false k j [] h = refl
has-delete-false k j ((i, b) ∷ d) h = ground (arith, has-delete-false k j d)

has-delete_all-false :
    (ids : List ℕ) (j : ℕ) (d : Dict ℕ Bytes)
    → Dict.has j d ≡ false
    → Dict.has j (delete_all ids d) ≡ false
unfolding delete_all
has-delete_all-false [] j d h = h
has-delete_all-false (id ∷ ids) j d h =
    has-delete_all-false ids j (Dict.delete id d) (has-delete-false id j d h)

-- A dict with `n` keys in a row has `n` entries at least.
keys_in_a_row :
    (n start : ℕ) (d : Dict ℕ Bytes)
    → ((j : ℕ) → j < n → Dict.has (start + j) d ≡ true)
    → n ≤ length d
keys_in_a_row zero start d h = omega arith
keys_in_a_row (suc n) start d h =
    let less = keys_in_a_row n start (Dict.delete (start + n) d) others in
    omega (arith, length-delete (start + n) d (h n (omega arith)))
  where
    others : (j : ℕ) → j < n → Dict.has (start + j) (Dict.delete (start + n) d) ≡ true
    others j below = has-delete_ne (start + n) (start + j) d (ground arith) ∙ h j (omega arith)

refused-same :
    (name : Text) (t : BufferMemoryTracker)
    → (try_acquire name 1 false t).1 ≡ false
    → (try_acquire name 1 false t).0 ≡ t
unfolding try_acquire
refused-same name t h = ground arith

one_longer :
    (made start : ℕ) (stored : Dict ℕ Bytes)
    → ((j : ℕ) → j < made → Dict.has (start + j) stored ≡ true)
    → Dict.has (start + made) stored ≡ true
    → (j : ℕ) → j < made + 1
    → Dict.has (start + j) stored ≡ true
one_longer made start stored row last j h = elim (Bool-cases (j == made)) [
  | inl same ↦
      let e : j ≡ made = ground arith in ap (λ (n : ℕ). Dict.has (start + n) stored) e ∙ last
  | inr other ↦ row j (ground arith)
]

module _ (name : Text) where
  -- The loop ended for want of a buffer, or of memory.
  abbrev Ended : Dict ℕ Bytes → Sequential → Type 0
  Ended stored s =
      (Dict.has s.next stored ≡ false) ⊎ ((try_acquire name 1 false s.memory).1 ≡ false)

  put_in_order-Ended :
      (rounds buffer_id start made : ℕ) (stored : Dict ℕ Bytes) (s : Sequential)
      → s.next ≡ start + made
      → made + rounds ≡ length stored
      → ((j : ℕ) → j < made → Dict.has (start + j) stored ≡ true)
      → Ended stored (put_in_order name rounds buffer_id stored s)
  unfolding put_in_order
  put_in_order-Ended zero buffer_id start made stored s at all row =
      elim (Bool-cases (Dict.has s.next stored)) [
        | inr gone ↦ inl gone
        | inl still ↦
            let last = subst (λ (n : ℕ). Dict.has n stored ≡ true) at still in
            let more =
              keys_in_a_row (made + 1) start stored (one_longer made start stored row last) in
            absurd (omega arith)
      ]
  put_in_order-Ended (suc rounds) buffer_id start made stored s at all row =
      elim (Option-cases (Dict.get s.next stored)) [
        | inl absent ↦
            let none_there : Dict.has s.next stored ≡ false =
              Dict.has-eq-get s.next stored ∙ rw absent refl in
            rw (absent, put_in_order) (inl none_there)
        | inr (b, found) ↦ elim (Bool-cases (try_acquire name 1 false s.memory).1) [
          | inr refused ↦
              let still =
                ap (λ (t : BufferMemoryTracker). (try_acquire name 1 false t).1)
                  (refused-same name s.memory refused) in
              rw (found, put_in_order, refused) (inr (still ∙ refused))
          | inl granted ↦
              let memory = (try_acquire name 1 false s.memory).0 in
              let last =
                subst (λ (n : ℕ). Dict.has n stored ≡ true) at (Dict.get→has s.next stored found) in
              rw (found, put_in_order, granted)
                (put_in_order-Ended rounds buffer_id start (made + 1) stored
                  (put_next buffer_id b memory s) (unfold put_next in omega arith) (omega arith)
                  (one_longer made start stored row last))
        ]
      ]

  -- Once a new buffer was stored, the buffer behind the watermark is not among the stored ones any
  -- more, or the memory for the output queue is used up.
  pub accept_drains :
      (buffer_id : ℕ) (buffer : Bytes) (r : DataReader)
      → let r' = accept name buffer_id buffer r in
        (Dict.has r'.next_wm r'.out_of_order ≡ false)
        ⊎ ((try_acquire name 1 false r'.tracker).1 ≡ false)
  unfolding accept
  accept_drains buffer_id buffer r =
      let stored = Dict.put buffer_id buffer r.out_of_order in
      let s : Sequential = record {
        queue = r.output_queue;
        next = r.next_wm;
        acks = r.ack_queue;
        memory = r.tracker;
        to_del = [];
      } in
      let s' = put_in_order name (length stored) buffer_id stored s in
      let ended =
        put_in_order-Ended (length stored) buffer_id r.next_wm 0 stored s (omega arith)
          (omega arith) (λ j h. absurd (omega arith)) in
      elim ended [
        | inl gone ↦ inl (has-delete_all-false s'.to_del s'.next stored gone)
        | inr full ↦ inr full
      ]
