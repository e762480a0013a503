-- ===== src/Stats/Job/Window.antt =====
-- The window of seconds (stats_manager.py): which entries `remove_old` keeps.
use volga.Prelude.{
  nat_eq, ℕ, ◌-◌, ◌==◌, ◌≡◌, refl, ◌∙◌, subst, Bool, true, false, ◌&&◌, List, [], ◌∷◌,
  if◌then◌else◌, ltb, arith, Bool-cases, beq→eq, inl, inr, All, none,
}
use volga.Prelude.Dict
use volga.Prelude.Dict.{Dict}
use volga.Stats.Hist.Merge.{Distinct}
use volga.Stats.Job.{remove_old}

unfoldable pub contains : ℕ → List ℕ → Bool
contains s [] = false
contains s (t ∷ ts) = if t == s then true else contains s ts

module _ {ℓ} {V : Type ℓ} where
  get-absent :
      (k : ℕ) (d : Dict ℕ V) → All (λ (c : ℕ). (k == c) ≡ false) (Dict.keys d) → Dict.get k d ≡ none
  unfolding Dict.get
  get-absent k [] h = refl
  get-absent k ((j, v) ∷ d) h =
      let other : (j == k) ≡ false = ground (arith, h.0) in rw other (get-absent k d h.1)

  get-delete :
      (k j : ℕ) (d : Dict ℕ V)
      → Distinct (Dict.keys d)
      → Dict.get j (Dict.delete k d) ≡ (if k == j then none else Dict.get j d)
  unfolding Dict.get Dict.delete
  get-delete k j [] u = ground arith
  get-delete k j ((i, v) ∷ d) u = elim (Bool-cases (i == k)) [
    | inl same ↦ elim (Bool-cases (i == j)) [
      | inl hit ↦
          let kj : (k == j) ≡ true = ground arith in
          let gone = get-absent i d u.0 in
          rw (same, kj) (subst (λ c. Dict.get c d ≡ none) (beq→eq i j hit) gone)
      | inr miss ↦ let kj : (k == j) ≡ false = ground arith in rw (same, kj, miss) refl
    ]
    | inr other ↦ elim (Bool-cases (i == j)) [
      | inl hit ↦ let kj : (k == j) ≡ false = ground arith in rw (other, hit, kj) refl
      | inr miss ↦ rw (other, miss) (get-delete k j d u.1)
    ]
  ]

  All-delete :
      (P : ℕ → Type 0) (k : ℕ) (d : Dict ℕ V)
      → All P (Dict.keys d)
      → All P (Dict.keys (Dict.delete k d))
  unfolding Dict.delete
  All-delete P k [] h = tt
  All-delete P k ((i, v) ∷ d) h = elim (Bool-cases (i == k)) [
    | inl same ↦ rw same h.1
    | inr other ↦ rw other (h.0, All-delete P k d h.1)
  ]

  Distinct-delete :
      (k : ℕ) (d : Dict ℕ V) → Distinct (Dict.keys d) → Distinct (Dict.keys (Dict.delete k d))
  unfolding Dict.delete
  Distinct-delete k [] u = tt
  Distinct-delete k ((i, v) ∷ d) u = elim (Bool-cases (i == k)) [
    | inl same ↦ rw same u.1
    | inr other ↦ rw other (All-delete (λ c. (i == c) ≡ false) k d u.0, Distinct-delete k d u.1)
  ]

  get-remove_old :
      (w newest : ℕ) (secs : List ℕ) (s : ℕ) (d : Dict ℕ V)
      → Distinct (Dict.keys d)
      → Dict.get s (remove_old w newest secs d)
        ≡ (if contains s secs && ltb w (newest - s) then none else Dict.get s d)
  unfolding remove_old contains
  get-remove_old w newest [] s d u = refl
  get-remove_old w newest (t ∷ secs) s d u = elim (Bool-cases (ltb w (newest - t))) [
    | inl old ↦
        let ih = get-remove_old w newest secs s (Dict.delete t d) (Distinct-delete t d u) in
        elim (Bool-cases (t == s)) [
          | inl same ↦
              let gone : ltb w (newest - s) ≡ true =
                subst (λ c. ltb w (newest - c) ≡ true) (beq→eq t s same) old in
              rw (old, same, gone, ih, gone, get-delete t s d u, same)
                (elim (Bool-cases (contains s secs)) [ inl c ↦ rw c refl | inr c ↦ rw c refl ])
          | inr other ↦ rw (old, other, ih, get-delete t s d u, other) refl
        ]
    | inr recent ↦
        let ih = get-remove_old w newest secs s d u in
        elim (Bool-cases (t == s)) [
          | inl same ↦
              let kept : ltb w (newest - s) ≡ false =
                subst (λ c. ltb w (newest - c) ≡ false) (beq→eq t s same) recent in
              rw (recent, same, kept, ih, kept)
                (elim (Bool-cases (contains s secs)) [ inl c ↦ rw c refl | inr c ↦ rw c refl ])
          | inr other ↦ rw (recent, other) ih
        ]
  ]

  absent-contains : (s : ℕ) (d : Dict ℕ V) → contains s (Dict.keys d) ≡ false → Dict.get s d ≡ none
  unfolding contains Dict.get
  absent-contains s [] h = refl
  absent-contains s ((t, v) ∷ d) h = elim (Bool-cases (t == s)) [
    | inl same ↦ cc (rw same at h)
    | inr other ↦ rw other (absent-contains s d (rw other at h))
  ]

  -- Removing what is out of the window keeps exactly the entries of its seconds.
  pub remove_old-get :
      (w newest s : ℕ) (d : Dict ℕ V)
      → Distinct (Dict.keys d)
      → Dict.get s (remove_old w newest (Dict.keys d) d)
        ≡ (if ltb w (newest - s) then none else Dict.get s d)
  remove_old-get w newest s d u =
      get-remove_old w newest (Dict.keys d) s d u ∙ elim (Bool-cases (contains s (Dict.keys d))) [
        | inl c ↦ rw c refl
        | inr c ↦
            rw (c, absent-contains s d c)
              (elim (Bool-cases (ltb w (newest - s))) [ inl o ↦ rw o refl | inr o ↦ rw o refl ])
      ]
