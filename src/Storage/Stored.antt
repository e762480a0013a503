-- ===== src/Storage/Stored.antt =====
-- What `bisect.insort_right` (simple_in_memory_actor_storage.py) keeps in the list of a key.
use volga.Prelude.{
  ℕ, zero, suc, ◌+◌, ◌-◌, ◌/◌, ◌≤◌, ◌<◌, ◌==◌, ◌≡◌, refl, sym, ap, ◌∙◌, subst, Bool, true, false,
  some, List, [], ◌∷◌, ◌++◌, ltb, length, get_elem?, take, drop, take-append-drop, arith,
  Bool-cases, inl, inr, Result, ok,
}
use mathlib.Core.List.{Perm, perm_middle}
use volga.Storage.{entry_less, narrow, bisect_right, insort}

get_elem?-some :
    {A : Type 0} (xs : List A) (i : ℕ) → i < length xs → (y : A) × (get_elem? xs i ≡ some y)
get_elem?-some [] i h = absurd (omega arith)
get_elem?-some (x ∷ xs) zero h = (x, refl)
get_elem?-some (x ∷ xs) (suc i) h = get_elem?-some xs i (omega arith)

module _ {V : Type 0} (value_less : V → V → Result Bool) where
  narrow-done :
      (x : ℕ × V) (lo hi : ℕ) (xs : List (ℕ × V)) (left right : Result ℕ)
      → ltb lo hi ≡ false
      → narrow value_less x lo hi xs left right ≡ ok lo
  unfolding narrow
  narrow-done x lo hi xs left right done = rw done refl

  -- More fuel than the width of the range changes nothing.
  bisect_right-fuel :
      (fuel : ℕ) (x : ℕ × V) (lo hi : ℕ) (xs : List (ℕ × V))
      → hi - lo ≤ fuel
      → bisect_right value_less (suc fuel) x lo hi xs ≡ bisect_right value_less fuel x lo hi xs
  unfolding bisect_right
  bisect_right-fuel zero x lo hi xs h =
      let no : ltb lo hi ≡ false = ground arith in unfold narrow in rw no refl
  bisect_right-fuel (suc fuel) x lo hi xs h = elim (Bool-cases (ltb lo hi)) [
    | inr done ↦ narrow-done x lo hi xs _ _ done ∙ sym (narrow-done x lo hi xs _ _ done)
    | inl more ↦
        let mid = (lo + hi) / 2 in
        let lt : lo < hi = ground arith in
        let left = bisect_right-fuel fuel x lo mid xs (omega arith) in
        let right = bisect_right-fuel fuel x (mid + 1) hi xs (omega arith) in
        ap
          (λ l.
            narrow value_less x lo hi xs l (bisect_right value_less (suc fuel) x (mid + 1) hi xs))
          left
        ∙ ap (λ r. narrow value_less x lo hi xs (bisect_right value_less fuel x lo mid xs) r) right
  ]

  entry_less-total :
      ((v w : V) → (b : Bool) × (value_less v w ≡ ok b))
      → (x y : ℕ × V) → (b : Bool) × (entry_less value_less x y ≡ ok b)
  unfolding entry_less
  entry_less-total total (t, v) (u, w) = elim (Bool-cases (ltb t u)) [
    | inl before ↦ (true, rw before refl)
    | inr after ↦ elim (Bool-cases (t == u)) [
      | inl same ↦ let (b, runs) = total v w in (b, rw (after, same) runs)
      | inr other ↦ (false, rw (after, other) refl)
    ]
  ]

  bisect_right-total :
      ((v w : V) → (b : Bool) × (value_less v w ≡ ok b))
      → (fuel : ℕ) (x : ℕ × V) (lo hi : ℕ) (xs : List (ℕ × V)) → hi ≤ length xs
      → (i : ℕ) × (bisect_right value_less fuel x lo hi xs ≡ ok i)
  unfolding bisect_right narrow
  bisect_right-total total zero x lo hi xs h = (lo, refl)
  bisect_right-total total (suc fuel) x lo hi xs h = elim (Bool-cases (ltb lo hi)) [
    | inr done ↦ (lo, rw done refl)
    | inl more ↦
        let mid = (lo + hi) / 2 in
        let lt : lo < hi = ground arith in
        let (y, there) = get_elem?-some xs mid (omega arith) in
        let (b, less) = entry_less-total total x y in
        let (i, left) = bisect_right-total total fuel x lo mid xs (omega arith) in
        let (j, right) = bisect_right-total total fuel x (mid + 1) hi xs h in
        elim (Bool-cases b) [
          | inl yes_less ↦ (i, rw (more, there, less, yes_less) left)
          | inr not_less ↦ (j, rw (more, there, less, not_less) right)
        ]
  ]

  pub insort_stores :
      ((v w : V) → (b : Bool) × (value_less v w ≡ ok b))
      → (x : ℕ × V) (xs : List (ℕ × V))
      → (ys : List (ℕ × V)) × (insort value_less x xs ≡ ok ys)
        × Perm ys (x ∷ xs)
        × (bisect_right value_less (suc (length xs)) x 0 (length xs) xs
            ≡ bisect_right value_less (length xs) x 0 (length xs) xs)
  unfolding insort
  insort_stores total x xs =
      let (i, runs) = bisect_right-total total (length xs) x 0 (length xs) xs (omega arith) in
      (
        take i xs ++ x ∷ drop i xs,
        rw runs refl,
        subst (λ zs. Perm (take i xs ++ x ∷ drop i xs) (x ∷ zs)) (take-append-drop i xs)
            (perm_middle (take i xs) (drop i xs)),
        bisect_right-fuel (length xs) x 0 (length xs) xs (omega arith),
      )
