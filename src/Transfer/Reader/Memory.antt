-- ===== src/Transfer/Reader/Memory.antt =====
-- data_reader.py and buffer_memory_tracker.py: the memory that was just taken can be given back.
use volga.Prelude.{nat_eq, ℕ, ◌+◌, ◌-◌, ◌≡◌, refl, Bool, true, false, ok, leb, Bool-cases, inl, inr}
use volga.Prelude.Dict
use volga.Prelude.Dict.{Dict}
use volga.Buffers.Serializer.{Text}
use volga.Buffers.Tracker.{text_eq, BufferMemoryTracker, capacity, try_acquire, release}
use volga.Transfer.Reader.{has_memory}

released :
    (key : Text) (amount : ℕ) (is_in : Bool) (t : BufferMemoryTracker)
    → (try_acquire key amount is_in t).1 ≡ true
    → (t' : BufferMemoryTracker) × (release key amount (try_acquire key amount is_in t).0 ≡ ok t')
unfolding try_acquire release
released key amount is_in t granted =
    elim (Bool-cases (leb amount (Dict.get_or key (capacity t is_in) t.shared_dict))) [
      | inr refused ↦ absurd (cc (rw refused at granted))
      | inl fits ↦
          let left = Dict.get_or key (capacity t is_in) t.shared_dict in
          let dict = Dict.put key (left - amount) t.shared_dict in
          rw fits (
            record t { shared_dict = Dict.put key (left - amount + amount) dict },
            rw (Dict.get-put_self key (left - amount) t.shared_dict, release) refl,
          )
    ]

-- Taking memory writes the key, so that giving it back never raises.
pub has_memory_total :
    (name : Text) (t : BufferMemoryTracker)
    → (t' : BufferMemoryTracker) × (has_mem : Bool) × (has_memory name t ≡ ok (t', has_mem))
unfolding has_memory
has_memory_total name t = elim (Bool-cases (try_acquire name 1 false t).1) [
  | inr refused ↦ ((try_acquire name 1 false t).0, false, rw refused refl)
  | inl granted ↦ let (t', freed) = given_back granted in (t', true, rw (granted, freed) refl)
]
  where
    given_back :
        (try_acquire name 1 false t).1 ≡ true
        → (t' : BufferMemoryTracker) × (release name 1 (try_acquire name 1 false t).0 ≡ ok t')
    given_back granted = released name 1 false t granted
