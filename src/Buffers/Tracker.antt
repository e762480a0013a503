-- ===== src/Buffers/Tracker.antt =====
-- volga/streaming/runtime/network_deprecated/buffer/buffer_memory_tracker.py. The lock of the node is
-- held for the whole of each call, so the calls of all processes stand one after the other.
pub mod Ledger
use volga.Prelude.{
  ℕ, ◌+◌, ◌-◌, ◌==◌, ◌≡◌, refl, ◌↔◌, subst, Bool, true, false, ◌&&◌, Option, none, some, List, [],
  ◌∷◌, Result, ok, raised, if◌then◌else◌, leb, Eq, arith,
}
use volga.Prelude.Dict
use volga.Prelude.Dict.{Dict}
use volga.Buffers.Serializer.{Text}

abbrev pub text_beq : Text → Text → Bool
text_beq [] [] = true
text_beq (c ∷ s) (d ∷ t) = c == d && text_beq s t
text_beq s t = false

text_beq→eq : (s t : Text) → text_beq s t ≡ true → s ≡ t
text_beq→eq [] [] h = refl
text_beq→eq [] (d ∷ t) h = cc
text_beq→eq (c ∷ s) [] h = cc
text_beq→eq (c ∷ s) (d ∷ t) h = ground (arith, text_beq→eq s t)

text_beq_refl : (s : Text) → text_beq s s ≡ true
text_beq_refl [] = refl
text_beq_refl (c ∷ s) = ground (arith, text_beq_refl s)

pub text_beq_iff : (s t : Text) → (text_beq s t ≡ true) ↔ (s ≡ t)
text_beq_iff s t =
    (text_beq→eq s t, λ e. subst (λ (u : Text). text_beq s u ≡ true) e (text_beq_refl s))

instance abbrev pub text_eq : Eq Text
text_eq = record { beq = text_beq; beq_iff = text_beq_iff }

pub record BufferMemoryTracker : Type 0 where
  pub capacity_per_in_channel : ℕ
  pub capacity_per_out : ℕ
  pub shared_dict : Dict Text ℕ

-- What a key that was never acquired has left.
abbrev pub capacity : BufferMemoryTracker → Bool → ℕ
capacity tracker is_in = if is_in then tracker.capacity_per_in_channel else tracker.capacity_per_out

unfoldable pub try_acquire : Text → ℕ → Bool → BufferMemoryTracker → BufferMemoryTracker × Bool
try_acquire key amount is_in tracker =
    let remaining = Dict.get_or key (capacity tracker is_in) tracker.shared_dict in
    if leb amount remaining
    then (
      record tracker { shared_dict = Dict.put key (remaining - amount) tracker.shared_dict },
      true,
    )
    else (tracker, false)

unfoldable pub release : Text → ℕ → BufferMemoryTracker → Result BufferMemoryTracker
release key amount tracker = elim (Dict.get key tracker.shared_dict) [
  | none ↦ raised
  | some remaining ↦
      ok (record tracker { shared_dict = Dict.put key (remaining + amount) tracker.shared_dict })
]

unfoldable pub get_capacity : Text → BufferMemoryTracker → Option ℕ
get_capacity key tracker = Dict.get key tracker.shared_dict
