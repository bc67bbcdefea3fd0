-- ===== src/Common/HashRing/Placing.antt =====
-- Where _get_partition puts a text on the ring that __init__ builds.
use stack4things_openstack_i.Base.{
  All, Bool-cases, List, String, [], arith, get_elem?, inl, inr, leb, length, refl, some, subst, ℕ,
  ◌<◌, ◌^◌, ◌∷◌, ◌≡◌, ◌≤◌, ◌⊎◌,
}
use stack4things_openstack_i.Common.HashRing.{
  add_hosts, bisect, get_partition, insert_sorted, make_ring, sorted_keys,
}

abbrev pub IsSorted : List ℕ → Type 0
IsSorted [] = Unit
IsSorted (k ∷ ks) = All (λ j. k ≤ j) ks × IsSorted ks

All-insert_sorted :
    (P : ℕ → Type 0) (k : ℕ) (ks : List ℕ) → P k → All P ks → All P (insert_sorted k ks)
unfolding insert_sorted
All-insert_sorted P k [] p a = (p, tt)
All-insert_sorted P k (j ∷ ks) p a = elim (Bool-cases (leb k j)) [
  | inl low ↦
      let e : k ∷ j ∷ ks ≡ insert_sorted k (j ∷ ks) = ground (arith, low) in
      subst (All P) e ((p, a))
  | inr high ↦
      let e : j ∷ insert_sorted k ks ≡ insert_sorted k (j ∷ ks) = ground (arith, high) in
      subst (All P) e ((a.0, All-insert_sorted P k ks p a.1))
]

All-weaken : (k j : ℕ) (ks : List ℕ) → k ≤ j → All (λ i. j ≤ i) ks → All (λ i. k ≤ i) ks
All-weaken k j [] h a = tt
All-weaken k j (i ∷ ks) h a = (omega (arith, h, a.0), All-weaken k j ks h a.1)

insert_sorted-IsSorted : (k : ℕ) (ks : List ℕ) → IsSorted ks → IsSorted (insert_sorted k ks)
unfolding insert_sorted
insert_sorted-IsSorted k [] s = (tt, tt)
insert_sorted-IsSorted k (j ∷ ks) s = elim (Bool-cases (leb k j)) [
  | inl low ↦
      let e : k ∷ j ∷ ks ≡ insert_sorted k (j ∷ ks) = ground (arith, low) in
      let h : k ≤ j = ground (arith, low) in subst IsSorted e (((h, All-weaken k j ks h s.0), s))
  | inr high ↦
      let e : j ∷ insert_sorted k ks ≡ insert_sorted k (j ∷ ks) = ground (arith, high) in
      let h : j ≤ k = ground (arith, high) in
      subst IsSorted e
        ((All-insert_sorted (λ i. j ≤ i) k ks h s.0, insert_sorted-IsSorted k ks s.1))
]

sorted_keys-IsSorted : (d : List (ℕ × String)) → IsSorted (sorted_keys d)
unfolding sorted_keys
sorted_keys-IsSorted [] = tt
sorted_keys-IsSorted ((k, u) ∷ d) =
    insert_sorted-IsSorted k (sorted_keys d) (sorted_keys-IsSorted d)

-- p is the place of the least partition above x, or the first place when none is above x
abbrev pub IsNext : List ℕ → ℕ → ℕ → Type 0
IsNext ks x p =
    ((k : ℕ) × (get_elem? ks p ≡ some k) × (x < k) × All (λ j. (j ≤ x) ⊎ (k ≤ j)) ks)
    ⊎ (All (λ j. j ≤ x) ks × (p ≡ 0))

above : (k x : ℕ) (ks : List ℕ) → All (λ j. k ≤ j) ks → All (λ j. (j ≤ x) ⊎ (k ≤ j)) ks
above k x [] a = tt
above k x (j ∷ ks) a = (inr a.0, above k x ks a.1)

bisect_next :
    (ks : List ℕ) (x : ℕ)
    → IsSorted ks
    → ((k : ℕ) × (get_elem? ks (bisect ks x) ≡ some k)
        × (x < k)
        × All (λ j. (j ≤ x) ⊎ (k ≤ j)) ks
        × (bisect ks x < length ks))
      ⊎ (All (λ j. j ≤ x) ks × (bisect ks x ≡ length ks))
unfolding bisect
bisect_next [] x s = inr (tt, refl)
bisect_next (k ∷ ks) x s = elim (Bool-cases (leb k x)) [
  | inr more ↦ inl (
    k,
    ground (arith, more),
    ground (arith, more),
    (inr (omega arith), above k x ks s.0),
    ground (arith, more),
  )
  | inl less ↦
      let h : k ≤ x = ground (arith, less) in
      elim (bisect_next ks x s.1) [
        | inl (j, at, lt, a, b) ↦
            inl (j, ground (arith, less, at), lt, (inl h, a), ground (arith, less, b))
        | inr (a, e) ↦ inr ((h, a), ground (arith, less, e))
      ]
]

-- On the ring that the constructor builds, a text is put at the partition with the least number
-- above the digest of the text, and at the first partition when there is none above it.
pub get_partition-IsNext :
    (md5 : String → ℕ) (exponent replicas : ℕ) (hosts : List String) (text : String)
    → IsNext
        (make_ring md5 exponent hosts replicas).partitions
        (md5 text)
        (get_partition md5 (make_ring md5 exponent hosts replicas) text)
unfolding make_ring get_partition
get_partition-IsNext md5 exponent replicas hosts text =
    elim (bisect_next ks (md5 text)
      (sorted_keys-IsSorted (add_hosts md5 (2 ^ exponent) hosts []))) [
        | inl (k, at, lt, a, b) ↦ inl (k, ground (arith, at, b), lt, a)
        | inr (a, e) ↦ inr (a, ground (arith, e))
      ]
  where
    ks : List ℕ
    ks = sorted_keys (add_hosts md5 (2 ^ exponent) hosts [])
