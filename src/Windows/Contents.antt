-- ===== src/Windows/Contents.antt =====
-- What a sliding window holds (window_operator.py): dropping records early loses none that is due.
use volga.Prelude.{
  ℕ, ◌-◌, ◌≤◌, ◌<◌, ◌≡◌, refl, sym, ap, ◌∙◌, subst, true, false, List, [], ◌∷◌, if◌then◌else◌, ltb,
  leb, arith, Bool-cases, inl, inr, SortedFrom, IsSorted, insort_right, insort_right-SortedFrom,
  insort_right-perm, ◌++◌, append-nil,
}
use mathlib.Core.List.{Perm, perm_middle}
use mathlib.Core.List.Perm
use volga.Operators.{Record}
use volga.Windows.{time_of, newest, remove_outdated, insert_record}

insort_front :
    {V K : Type 0} (x : Record V K) (low : ℕ) (rs : List (Record V K))
    → time_of x < low
    → SortedFrom time_of low rs
    → insort_right time_of x rs ≡ x ∷ rs
unfolding insort_right
insort_front x low [] lt s = refl
insort_front x low (r ∷ rs) lt s =
    let before : ltb (time_of x) (time_of r) ≡ true = ground (arith, s.0) in rw before refl

lower :
    {V K : Type 0} (high low : ℕ) (rs : List (Record V K))
    → low ≤ high
    → SortedFrom time_of high rs
    → SortedFrom time_of low rs
lower high low [] le s = tt
lower high low (r ∷ rs) le s = (omega (arith, s.0), s.1)

abbrev later_of : ℕ → ℕ → ℕ
later_of a b = if leb a b then b else a

newest-above :
    {V K : Type 0} (low : ℕ) (r : Record V K) (rs : List (Record V K))
    → SortedFrom time_of low (r ∷ rs)
    → time_of r ≤ newest (r ∷ rs)
unfolding newest
newest-above low r [] s = omega arith
newest-above low r (t ∷ rs) s =
    let ih = newest-above (time_of r) t rs s.1 in omega (arith, ih, s.1.0)

newest-insort_right :
    {V K : Type 0} (x : Record V K) (low : ℕ) (r : Record V K) (rs : List (Record V K))
    → SortedFrom time_of low (r ∷ rs)
    → newest (insort_right time_of x (r ∷ rs)) ≡ later_of (newest (r ∷ rs)) (time_of x)
unfolding newest insort_right
newest-insort_right x low r [] s = elim (Bool-cases (ltb (time_of x) (time_of r))) [
  | inl before ↦ let no : leb (time_of r) (time_of x) ≡ false = ground arith in rw (before, no) refl
  | inr after ↦ let yes : leb (time_of r) (time_of x) ≡ true = ground arith in rw (after, yes) refl
]
newest-insort_right x low r (t ∷ rs) s =
    let above = newest-above (time_of r) t rs s.1 in
    let ih = newest-insort_right x (time_of r) t rs s.1 in
    let no_later : time_of x < time_of t → leb (newest (t ∷ rs)) (time_of x) ≡ false =
      λ lt. ground arith in
    elim (Bool-cases (ltb (time_of x) (time_of r))) [
      | inl before ↦ let no = no_later (ground (arith, s.1.0)) in rw (before, no) refl
      | inr after ↦ elim (Bool-cases (ltb (time_of x) (time_of t))) [
        | inl under ↦ let no = no_later (ground arith) in rw (after, under, no) refl
        | inr last ↦ rw (after, last) (rw last at ih)
      ]
    ]

module _ {V K : Type 0} (len : ℕ) where
  remove_outdated-absorbs :
      (last later : ℕ) (x : Record V K) (low : ℕ) (rs : List (Record V K))
      → last ≤ later
      → SortedFrom time_of low rs
      → remove_outdated len later (insort_right time_of x (remove_outdated len last rs))
        ≡ remove_outdated len later (insort_right time_of x rs)
  unfolding remove_outdated insort_right
  remove_outdated-absorbs last later x low [] le s = refl
  remove_outdated-absorbs last later x low (r ∷ rs) le s =
      elim (Bool-cases (ltb len (last - time_of r))) [
        | inr kept ↦ rw kept refl
        | inl gone ↦
            let also : ltb len (later - time_of r) ≡ true = ground arith in
            let ih = remove_outdated-absorbs last later x (time_of r) rs le s.1 in
            elim (Bool-cases (ltb (time_of x) (time_of r))) [
              | inl before ↦
                  let x_gone : ltb len (later - time_of x) ≡ true = ground arith in
                  let front = insort_front x (time_of r) rs (ground arith) s.1 in
                  rw (gone, before, x_gone, also) (ih ∙ rw (front, x_gone) refl)
              | inr after ↦ rw (gone, after, also) ih
            ]
      ]

  remove_outdated-SortedFrom :
      (last low : ℕ) (rs : List (Record V K))
      → SortedFrom time_of low rs
      → SortedFrom time_of low (remove_outdated len last rs)
  unfolding remove_outdated
  remove_outdated-SortedFrom last low [] s = tt
  remove_outdated-SortedFrom last low (r ∷ rs) s = elim (Bool-cases (ltb len (last - time_of r))) [
    | inr kept ↦ rw kept s
    | inl gone ↦
        rw gone (lower (time_of r) low _ s.0 (remove_outdated-SortedFrom last (time_of r) rs s.1))
  ]

  -- The last record is never too old for itself.
  newest-remove_outdated :
      (last : ℕ) (r : Record V K) (rs : List (Record V K))
      → last ≤ newest (r ∷ rs)
      → (s : Record V K) × (ss : List (Record V K)) × (remove_outdated len last (r ∷ rs) ≡ s ∷ ss)
        × (newest (s ∷ ss) ≡ newest (r ∷ rs))
  unfolding remove_outdated newest
  newest-remove_outdated last r [] h =
      let kept : ltb len (last - time_of r) ≡ false = ground arith in (r, [], rw kept refl, refl)
  newest-remove_outdated last r (s ∷ rs) h = elim (Bool-cases (ltb len (last - time_of r))) [
    | inr kept ↦ (r, s ∷ rs, rw kept refl, refl)
    | inl gone ↦
        let (t, ts, there, same) = newest-remove_outdated last s rs h in
        (t, ts, rw gone there, same)
  ]

  -- A window after a list of records, and all the records in the order of their times.
  unfoldable pub window_of : List (Record V K) → List (Record V K) → List (Record V K)
  unfolding insert_record
  window_of window [] = window
  window_of window (r ∷ rs) = window_of (insert_record len r window) rs

  unfoldable pub by_time : List (Record V K) → List (Record V K) → List (Record V K)
  by_time all [] = all
  by_time all (r ∷ rs) = by_time (insort_right time_of r all) rs

  -- The records of a list that are at most the length older than its newest.
  unfoldable pub current : List (Record V K) → List (Record V K)
  unfolding remove_outdated newest
  current all = remove_outdated len (newest all) all

  insert-current :
      (x : Record V K) (all : List (Record V K))
      → SortedFrom time_of 0 all
      → insert_record len x (current all) ≡ current (insort_right time_of x all)
  unfolding insert_record current
  insert-current x [] s = refl
  insert-current x (r ∷ rs) s =
      let full = newest (r ∷ rs) in
      let (t, ts, there, same) = newest-remove_outdated full r rs (omega arith) in
      let kept : SortedFrom time_of 0 (t ∷ ts) =
        subst (SortedFrom time_of 0) there (remove_outdated-SortedFrom full 0 (r ∷ rs) s) in
      let next = newest-insort_right x 0 r rs s in
      let next_kept = newest-insort_right x 0 t ts kept in
      let one_newest : newest (insort_right time_of x (t ∷ ts))
          ≡ newest (insort_right time_of x (r ∷ rs)) =
        next_kept ∙ rw (same, next) refl in
      let grows : full ≤ newest (insort_right time_of x (r ∷ rs)) = ground (arith, next) in
      let window = remove_outdated len full (r ∷ rs) in
      let one : newest (insort_right time_of x window) ≡ newest (insort_right time_of x (r ∷ rs)) =
        subst (λ w. newest (insort_right time_of x w) ≡ newest (insort_right time_of x (r ∷ rs)))
          (sym there) one_newest in
      ap (λ (n : ℕ). remove_outdated len n (insort_right time_of x window)) one
      ∙ remove_outdated-absorbs full (newest (insort_right time_of x (r ∷ rs))) x 0 (r ∷ rs) grows s

  window_of-current :
      (all rs : List (Record V K))
      → SortedFrom time_of 0 all
      → window_of (current all) rs ≡ current (by_time all rs)
  unfolding window_of by_time
  window_of-current all [] s = refl
  window_of-current all (r ∷ rs) s =
      ap (λ w. window_of w rs) (insert-current r all s)
      ∙ window_of-current (insort_right time_of r all) rs
          (insort_right-SortedFrom time_of 0 r all (omega arith) s)

  by_time-SortedFrom :
      (all rs : List (Record V K))
      → SortedFrom time_of 0 all
      → SortedFrom time_of 0 (by_time all rs)
  unfolding by_time
  by_time-SortedFrom all [] s = s
  by_time-SortedFrom all (r ∷ rs) s =
      by_time-SortedFrom (insort_right time_of r all) rs
        (insort_right-SortedFrom time_of 0 r all (omega arith) s)

  by_time-perm : (all rs : List (Record V K)) → Perm (by_time all rs) (all ++ rs)
  unfolding by_time
  by_time-perm all [] = subst (Perm all) (sym (append-nil all)) (Perm.refl all)
  by_time-perm all (r ∷ rs) = Perm.trans (by_time-perm (insort_right time_of r all) rs) (
      Perm.trans (Perm.append_right rs (insort_right-perm time_of r all))
        (Perm.symm (perm_middle all rs)))

  pub window_contents :
      (rs : List (Record V K))
      → (window_of [] rs ≡ current (by_time [] rs))
        × IsSorted time_of (by_time [] rs)
        × Perm (by_time [] rs) rs
  unfolding current
  window_contents rs = (window_of-current [] rs tt, by_time-SortedFrom [] rs tt, by_time-perm [] rs)
