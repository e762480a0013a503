-- ===== src/Prelude/Dict.antt =====
-- Python's dict: an association list in insertion order. Writing to a key that is there keeps its
-- place, and a new key goes to the end.
use volga.Prelude.Tests.{Eq, if◌then◌else◌, Bool-cases, beq→eq, beq_refl, beq_ne}
use volga.Prelude.Sorted.{All}
use mathlib.Core.Path.{◌≡◌, refl, sym, ap, subst}
use mathlib.Core.Logic.{◌≢◌, inl, inr}
use mathlib.Core.Bool.{Bool, true, false}
use mathlib.Core.Option.{Option, none, some}
use mathlib.Core.List.{List, [], ◌∷◌, ◌++◌}
use Prim.Native.Nat.{suc, ◌+◌, ◌≤◌}
use volga.Prelude.Lists.{length}
use native.Mathlib.Omega.{arith}

abbrev pub Dict {ℓ κ} : Type ℓ → Type κ → Type (ℓ ⊔ κ)
Dict K V = List (K × V)

module _ {ℓ κ} {K : Type ℓ} {V : Type κ} where
  abbrev pub keys : Dict K V → List K
  keys [] = []
  keys ((k, v) ∷ d) = k ∷ keys d

  abbrev pub values : Dict K V → List V
  values [] = []
  values ((k, v) ∷ d) = v ∷ values d

module _ {ℓ κ} {K : Type ℓ} {V : Type κ} ⦃e : Eq K⦄ where
  unfoldable pub get : K → Dict K V → Option V
  get k [] = none
  get k ((j, v) ∷ d) = if e.beq j k then some v else get k d

  unfoldable pub put : K → V → Dict K V → Dict K V
  put k v [] = (k, v) ∷ []
  put k v ((j, w) ∷ d) = if e.beq j k then (j, v) ∷ d else (j, w) ∷ put k v d

  -- `k in d`
  unfoldable pub has : K → Dict K V → Bool
  has k [] = false
  has k ((j, v) ∷ d) = if e.beq j k then true else has k d

  -- `d[k]` where the code has a default at hand.
  abbrev pub get_or : K → V → Dict K V → V
  get_or k v d = elim (get k d) [ some w ↦ w | none ↦ v ]

  -- `del d[k]`
  unfoldable pub delete : K → Dict K V → Dict K V
  delete k [] = []
  delete k ((j, w) ∷ d) = if e.beq j k then d else (j, w) ∷ delete k d

  pub get-put :
      (k j : K) (v : V) (d : Dict K V) → get j (put k v d) ≡ (if e.beq k j then some v else get j d)
  unfolding get put
  get-put k j v [] = refl
  get-put k j v ((i, w) ∷ d) =
      ground (arith, e.beq_iff k j, e.beq_iff i k, e.beq_iff i j, get-put k j v d)

  pub get-put_self : (k : K) (v : V) (d : Dict K V) → get k (put k v d) ≡ some v
  get-put_self k v d = rw (get-put, beq_refl k)

  pub get-put_ne : (k j : K) (v : V) (d : Dict K V) → k ≢ j → get j (put k v d) ≡ get j d
  get-put_ne k j v d h = rw (get-put, beq_ne k j h)

  pub has-eq-get :
      (k : K) (d : Dict K V) → has k d ≡ elim (get k d) [ some v ↦ true | none ↦ false ]
  unfolding has get
  has-eq-get k [] = refl
  has-eq-get k ((j, v) ∷ d) = ground (arith, has-eq-get k d)

  pub has→get : (k : K) (d : Dict K V) → has k d ≡ true → (v : V) × (get k d ≡ some v)
  unfolding has get
  has→get k [] h = cc
  has→get k ((j, v) ∷ d) h = elim (Bool-cases (e.beq j k)) [
    | inl same ↦ (v, rw same)
    | inr other ↦ let (w, found) = has→get k d (rw other at h) in (w, rw other found)
  ]

  pub get→has : (k : K) (d : Dict K V) {v : V} → get k d ≡ some v → has k d ≡ true
  get→has k d found = rw (has-eq-get, found)

  pub has-false→get : (k : K) (d : Dict K V) → has k d ≡ false → get k d ≡ none
  unfolding has get
  has-false→get k [] h = refl
  has-false→get k ((j, v) ∷ d) h = ground (arith, has-false→get k d)

  pub has-put :
      (k j : K) (v : V) (d : Dict K V) → has j (put k v d) ≡ (if e.beq k j then true else has j d)
  unfolding has put
  has-put k j v [] = refl
  has-put k j v ((i, w) ∷ d) =
      ground (arith, e.beq_iff k j, e.beq_iff i k, e.beq_iff i j, has-put k j v d)

  -- A new key is written at the end.
  pub put-new : (k : K) (v : V) (d : Dict K V) → has k d ≡ false → put k v d ≡ d ++ (k, v) ∷ []
  unfolding has put
  put-new k v [] h = refl
  put-new k v ((i, w) ∷ d) h = elim (Bool-cases (e.beq i k)) [
    | inl same ↦ cc (rw same at h)
    | inr other ↦ rw (other, put-new k v d (rw other at h))
  ]

-- `if k in d: d[k].append(x)` and else `d[k] = [x]`, over the dict's lists.
module _ {ℓ κ} {K : Type ℓ} {A : Type κ} ⦃e : Eq K⦄ where
  unfoldable pub push : K → A → Dict K (List A) → Dict K (List A)
  push k x [] = (k, x ∷ []) ∷ []
  push k x ((j, xs) ∷ d) = if e.beq j k then (j, xs ++ x ∷ []) ∷ d else (j, xs) ∷ push k x d

  pub get-push :
      (k j : K) (x : A) (d : Dict K (List A))
      → get j (push k x d) ≡ (if e.beq k j then some (get_or k [] d ++ x ∷ []) else get j d)
  unfolding get push
  get-push k j x [] = ground (arith, e.beq_iff k j)
  get-push k j x ((i, xs) ∷ d) =
      ground (arith, e.beq_iff k j, e.beq_iff i k, e.beq_iff i j, get-push k j x d)

  pub get_or-push_self :
      (k : K) (x : A) (d : Dict K (List A)) → get_or k [] (push k x d) ≡ get_or k [] d ++ x ∷ []
  get_or-push_self k x d = rw (get-push, beq_refl k, get_or)

  pub get_or-push_ne :
      (k j : K) (x : A) (d : Dict K (List A))
      → e.beq k j ≡ false
      → get_or j [] (push k x d) ≡ get_or j [] d
  get_or-push_ne k j x d h = rw (get-push, h, get_or)

  pub has-push :
      (k j : K) (x : A) (d : Dict K (List A))
      → has j (push k x d) ≡ (if e.beq k j then true else has j d)
  unfolding has push
  has-push k j x [] = refl
  has-push k j x ((i, xs) ∷ d) =
      ground (arith, e.beq_iff k j, e.beq_iff i k, e.beq_iff i j, has-push k j x d)

  pub All-push {μ} :
      (P : K × List A → Type μ) (k : K) (x : A) (d : Dict K (List A))
      → (has k d ≡ false → P (k, x ∷ []))
      → ((xs : List A) → get k d ≡ some xs → P (k, xs) → P (k, xs ++ x ∷ []))
      → All P d
      → All P (push k x d)
  unfolding push has get
  All-push P k x [] fresh more h = (fresh refl, tt)
  All-push P k x ((j, xs) ∷ d) fresh more h = elim (Bool-cases (e.beq j k)) [
    | inl same ↦ rw same (
      subst (λ i. P (i, xs ++ x ∷ [])) (sym (beq→eq j k same))
          (more xs (rw same) (subst (λ i. P (i, xs)) (beq→eq j k same) h.0)),
      h.1,
    )
    | inr other ↦
        rw other
          (h.0, All-push P k x d (λ n. fresh (rw other n)) (λ ys g. more ys (rw other g)) h.1)
  ]

module _ {ℓ κ} {K : Type ℓ} {V : Type κ} ⦃e : Eq K⦄ where
  pub All-put {μ} :
      (P : K × V → Type μ) (k : K) (v : V) (d : Dict K V) → P (k, v) → All P d → All P (put k v d)
  unfolding put
  All-put P k v [] new h = (new, tt)
  All-put P k v ((j, w) ∷ d) new h = elim (Bool-cases (e.beq j k)) [
    | inl same ↦ rw same (subst (λ i. P (i, v)) (sym (beq→eq j k same)) new, h.1)
    | inr other ↦ rw other (h.0, All-put P k v d new h.1)
  ]

  pub All-get {μ} :
      (P : K × V → Type μ) (k : K) (d : Dict K V) {v : V} → All P d → get k d ≡ some v → P (k, v)
  unfolding get
  All-get P k [] h found = cc
  All-get P k ((j, w) ∷ d) {v} h found = elim (Bool-cases (e.beq j k)) [
    | inl same ↦
        let w_is : w ≡ v = cc (rw same at found) in
        subst (λ i. P (i, v)) (beq→eq j k same) (subst (λ u. P (j, u)) w_is h.0)
    | inr other ↦ All-get P k d h.1 (rw other at found)
  ]

  pub All-delete {μ} : (P : K × V → Type μ) (k : K) (d : Dict K V) → All P d → All P (delete k d)
  unfolding delete
  All-delete P k [] h = tt
  All-delete P k ((j, w) ∷ d) h = elim (Bool-cases (e.beq j k)) [
    | inl same ↦ rw same h.1
    | inr other ↦ rw other (h.0, All-delete P k d h.1)
  ]

  pub get-delete_ne : (k j : K) (d : Dict K V) → k ≢ j → get j (delete k d) ≡ get j d
  unfolding get delete
  get-delete_ne k j [] h = refl
  get-delete_ne k j ((i, v) ∷ d) h =
      ground (arith, e.beq_iff i k, e.beq_iff i j, get-delete_ne k j d h)

  pub length-delete : (k : K) (d : Dict K V) → length (delete k d) ≤ length d
  unfolding delete
  length-delete k [] = omega arith
  length-delete k ((i, v) ∷ d) = ground (arith, length-delete k d)

  pub length-put : (k : K) (v : V) (d : Dict K V) → length (put k v d) ≤ length d + 1
  unfolding put
  length-put k v [] = omega arith
  length-put k v ((i, w) ∷ d) = ground (arith, length-put k v d)

  pub length-put_again :
      (k : K) (v : V) (d : Dict K V) {w : V} → get k d ≡ some w → length (put k v d) ≡ length d
  unfolding put get
  length-put_again k v [] h = cc
  length-put_again k v ((i, u) ∷ d) h = elim (Bool-cases (e.beq i k)) [
    | inl same ↦ rw same refl
    | inr other ↦ rw other (ap suc (length-put_again k v d (rw other at h)))
  ]
