-- ===== src/Base/Counting.antt =====
-- How many elements of a list pass a test.
use stack4things_openstack_i.Base.{
  All, Bool, Bool-cases, List, [], any, ap, arith, false, filter, inl, inr, length, map, refl, suc,
  true, ◌++◌, ◌∷◌, ◌≡◌, ◌≤◌,
}

module _ {ℓ} {A : Type ℓ} where
  pub length-filter : (p : A → Bool) (xs : List A) → length (filter p xs) ≤ length xs
  unfolding filter
  length-filter p [] = omega arith
  length-filter p (x ∷ xs) = let rest = length-filter p xs in ground arith

  pub filter_comm : (p q : A → Bool) (xs : List A) → filter p (filter q xs) ≡ filter q (filter p xs)
  unfolding filter
  filter_comm p q [] = refl
  filter_comm p q (x ∷ xs) = ground (arith, filter_comm p q xs)

  length-zero : (xs : List A) → length xs ≤ 0 → xs ≡ []
  length-zero [] h = refl
  length-zero (x ∷ xs) h = absurd (omega arith)

  pub length-map : (f : A → A) (xs : List A) → length (map f xs) ≡ length xs
  length-map f [] = refl
  length-map f (x ∷ xs) = ap suc (length-map f xs)

  pub All-filter : (P : A → Type 0) (q : A → Bool) (xs : List A) → All P xs → All P (filter q xs)
  unfolding filter
  All-filter P q [] h = tt
  All-filter P q (x ∷ xs) (h, hs) = elim (Bool-cases (q x)) [
    | inl e ↦ rw e (h, All-filter P q xs hs)
    | inr e ↦ rw e (All-filter P q xs hs)
  ]

  pub All-append : (P : A → Type 0) (xs ys : List A) → All P xs → All P ys → All P (xs ++ ys)
  All-append P [] ys h k = k
  All-append P (x ∷ xs) ys (h, hs) k = (h, All-append P xs ys hs k)

  -- of two tests that a list passes at most once, and that one element passes, the same is found
  pub filter-only :
      (p q : A → Bool) (r : A) (xs : List A)
      → filter p xs ≡ r ∷ []
      → q r ≡ true
      → length (filter q xs) ≤ 1
      → filter q xs ≡ r ∷ []
  unfolding filter
  filter-only p q r [] h k l = cc
  filter-only p q r (x ∷ xs) h k l = elim (Bool-cases (p x)) [
    | inl e ↦
        let here : x ∷ filter p xs ≡ r ∷ [] = ground (arith, e) in
        let same : x ≡ r = cc in
        let passes : q x ≡ true = rw same k in
        let none_left : length (filter q xs) ≤ 0 = ground (arith, passes) in
        rw (passes, length-zero (filter q xs) none_left, same) refl
    | inr e ↦
        let only = filter-only p q r xs (ground (arith, e)) k (ground arith) in
        elim (Bool-cases (q x)) [ inl f ↦ absurd (ground (arith, f, only)) | inr f ↦ rw f only ]
  ]

  pub filter-none : (p : A → Bool) (xs : List A) → any p xs ≡ false → filter p xs ≡ []
  unfolding any filter
  filter-none p [] h = refl
  filter-none p (x ∷ xs) h = ground (arith, filter-none p xs)
