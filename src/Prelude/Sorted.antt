-- ===== src/Prelude/Sorted.antt =====
-- Lists sorted by a numeric key: `bisect.insort_right` and the stable `list.sort(key=...)`.
use volga.Prelude.Tests.{if◌then◌else◌, ltb, Bool-cases}
use Prim.Native.Nat.{ℕ, ◌≤◌}
use mathlib.Core.Path.{◌≡◌, refl, sym, subst}
use mathlib.Core.Logic.{◌⊎◌, inl, inr}
use mathlib.Core.List.{List, [], ◌∷◌, ◌++◌, Perm}
use mathlib.Core.List.Perm
use native.Mathlib.Omega.{arith}

-- Every element of a list.
abbrev pub All {ℓ κ} : {A : Type ℓ} → (A → Type κ) → List A → Type κ
All P [] = Unit
All P (x ∷ xs) = P x × All P xs

module _ {ℓ} {A : Type ℓ} where
  pub All-append {κ} : (P : A → Type κ) (xs ys : List A) → All P xs → All P ys → All P (xs ++ ys)
  All-append P [] ys hx hy = hy
  All-append P (x ∷ xs) ys hx hy = (hx.0, All-append P xs ys hx.1 hy)

  pub All-map {κ μ} :
      {P : A → Type κ} {Q : A → Type μ} (xs : List A) → ((x : A) → P x → Q x) → All P xs → All Q xs
  All-map [] f h = tt
  All-map (x ∷ xs) f h = (f x h.0, All-map xs f h.1)

-- Membership, by recursion.
abbrev pub In : {A : Type 0} → A → List A → Type 0
In a [] = ⊥
In a (x ∷ xs) = (a ≡ x) ⊎ In a xs

module _ {A : Type 0} where
  pub In-append_left : (a : A) (xs ys : List A) → In a xs → In a (xs ++ ys)
  In-append_left a [] ys h = absurd h
  In-append_left a (x ∷ xs) ys (inl e) = inl e
  In-append_left a (x ∷ xs) ys (inr h) = inr (In-append_left a xs ys h)

  pub In-append_right : (a : A) (xs ys : List A) → In a ys → In a (xs ++ ys)
  In-append_right a [] ys h = h
  In-append_right a (x ∷ xs) ys h = inr (In-append_right a xs ys h)

  pub In-append : (a : A) (xs ys : List A) → In a (xs ++ ys) → In a xs ⊎ In a ys
  In-append a [] ys h = inr h
  In-append a (x ∷ xs) ys (inl e) = inl (inl e)
  In-append a (x ∷ xs) ys (inr h) = elim (In-append a xs ys h) [
    | inl l ↦ inl (inr l)
    | inr r ↦ inr r
  ]

  pub All-In {κ} : (P : A → Type κ) (a : A) (xs : List A) → All P xs → In a xs → P a
  All-In P a [] h i = absurd i
  All-In P a (x ∷ xs) h (inl e) = subst P (sym e) h.0
  All-In P a (x ∷ xs) h (inr i) = All-In P a xs h.1 i

  pub In-All {κ} : (P : A → Type κ) (xs : List A) → ((a : A) → In a xs → P a) → All P xs
  In-All P [] h = tt
  In-All P (x ∷ xs) h = (h x (inl refl), In-All P xs (λ a i. h a (inr i)))

module _ {ℓ} {A : Type ℓ} (key : A → ℕ) where
  -- Every element stands at or above `low`, in order.
  abbrev pub SortedFrom : ℕ → List A → Type 0
  SortedFrom low [] = Unit
  SortedFrom low (x ∷ xs) = (low ≤ key x) × SortedFrom (key x) xs

  abbrev pub IsSorted : List A → Type 0
  IsSorted = SortedFrom 0

  -- Before the first element with a greater key: where `bisect_right` points in a sorted list.
  unfoldable pub insort_right : A → List A → List A
  insort_right x [] = x ∷ []
  insort_right x (y ∷ ys) = if ltb (key x) (key y) then x ∷ y ∷ ys else y ∷ insort_right x ys

  pub insort_right-SortedFrom :
      (low : ℕ) (x : A) (ys : List A)
      → low ≤ key x
      → SortedFrom low ys
      → SortedFrom low (insort_right x ys)
  unfolding insort_right
  insort_right-SortedFrom low x [] h s = (h, tt)
  insort_right-SortedFrom low x (y ∷ ys) h s = elim (Bool-cases (ltb (key x) (key y))) [
    | inl before ↦ rw before (h, (ground arith, s.1))
    | inr after ↦ rw after (s.0, insort_right-SortedFrom (key y) x ys (ground arith) s.1)
  ]

  pub insort_right-perm : (x : A) (ys : List A) → Perm (insort_right x ys) (x ∷ ys)
  unfolding insort_right
  insort_right-perm x [] = Perm.refl _
  insort_right-perm x (y ∷ ys) = elim (Bool-cases (ltb (key x) (key y))) [
    | inl before ↦ rw before (Perm.refl _)
    | inr after ↦ rw after (Perm.trans (Perm.cons y (insort_right-perm x ys)) (Perm.swap x y ys))
  ]
