-- ===== src/Buffers/Tracker/Ledger.antt =====
-- buffer_memory_tracker.py: however calls follow one another, what a key has left is its capacity
-- less what it holds.
use volga.Prelude.{
  ℕ, ◌+◌, ◌≡◌, ap, sym, ◌-◌, Bool, List, [], ◌∷◌, Result, ok, raised, ◌>>=◌, if◌then◌else◌,
  Option-cases, Result-cases, inl, inr, arith,
}
use volga.Prelude.Dict
use volga.Buffers.Serializer.{Text}
use volga.Buffers.Tracker.{
  text_eq, text_beq_iff, BufferMemoryTracker, capacity, try_acquire, release,
}

-- A call of a process: each key is acquired always as an input or always as an output.
pub data Call : Type 0 where
  acquire : Text → ℕ → Call
  give_back : Text → ℕ → Call

module _ (is_in : Text → Bool) where
  unfoldable pub call : Call → BufferMemoryTracker → Result BufferMemoryTracker
  call (acquire key amount) t = ok (try_acquire key amount (is_in key) t).0
  call (give_back key amount) t = release key amount t

  unfoldable pub calls : List Call → BufferMemoryTracker → Result BufferMemoryTracker
  unfolding call
  calls [] t = ok t
  calls (c ∷ cs) t = do t' ← call c t; calls cs t'

  -- What a key has left.
  abbrev pub left : Text → BufferMemoryTracker → ℕ
  left key t = Dict.get_or key (capacity t (is_in key)) t.shared_dict

  -- What the calls took from a key, and gave back to it.
  abbrev pub taken : Text → List Call → BufferMemoryTracker → ℕ
  taken key [] t = 0
  taken key (acquire k amount ∷ cs) t =
      (if text_eq.beq k key
        then (if (try_acquire k amount (is_in k) t).1 then amount else 0)
        else 0)
      + taken key cs (try_acquire k amount (is_in k) t).0
  taken key (give_back k amount ∷ cs) t = elim (release k amount t) [
    | ok t' ↦ taken key cs t'
    | raised ↦ 0
  ]

  abbrev pub returned : Text → List Call → ℕ
  returned key [] = 0
  returned key (acquire k amount ∷ cs) = returned key cs
  returned key (give_back k amount ∷ cs) =
      (if text_eq.beq k key then amount else 0) + returned key cs

  -- What one call takes from a key, and gives back to it.
  acquire_balances :
      (key k : Text) (amount : ℕ) (t : BufferMemoryTracker)
      → left key (try_acquire k amount (is_in k) t).0
          + (if text_eq.beq k key
              then (if (try_acquire k amount (is_in k) t).1 then amount else 0)
              else 0)
        ≡ left key t
  unfolding try_acquire
  acquire_balances key k amount t =
      ground (arith, Dict.get-put k key (left k t - amount) t.shared_dict, text_beq_iff k key)

  release_balances :
      (key k : Text) (amount : ℕ) (t : BufferMemoryTracker) {t' : BufferMemoryTracker}
      → release k amount t ≡ ok t'
      → left key t' ≡ left key t + (if text_eq.beq k key then amount else 0)
  unfolding release
  release_balances key k amount t {t'} h = elim (Option-cases (Dict.get k t.shared_dict)) [
    | inl absent ↦ absurd (cc (rw (absent, release) at h))
    | inr (remaining, found) ↦
        ground
          (arith, found, Dict.get-put k key (remaining + amount) t.shared_dict, text_beq_iff k key)
  ]

  -- However acquiring and releasing follow one another, what a key has left at the end and what the
  -- calls took from it are together what it had left at first and what they gave back.
  pub ledger_balances :
      (key : Text) (cs : List Call) (t : BufferMemoryTracker) {t' : BufferMemoryTracker}
      → calls cs t ≡ ok t'
      → left key t' + taken key cs t ≡ left key t + returned key cs
  unfolding calls call
  ledger_balances key [] t {t'} h =
      let same : t ≡ t' = cc in ap (λ (u : BufferMemoryTracker). left key u + 0) (sym same)
  ledger_balances key (acquire k amount ∷ cs) t {t'} h = omega (
    arith,
    ledger_balances key cs (try_acquire k amount (is_in k) t).0 h,
    acquire_balances key k amount t,
  )
  ledger_balances key (give_back k amount ∷ cs) t {t'} h =
      elim (Result-cases (release k amount t)) [
        | inl failed ↦ absurd (cc (rw failed at h))
        | inr (u, done) ↦
            rw (done, taken)
              (omega (
                arith,
                ledger_balances key cs u (rw done at h),
                release_balances key k amount t done,
              ))
      ]
