-- ===== src/Conductor/Ports/Lists.antt =====
-- Lists of port numbers: ranges, removal, and choice.
use stack4things_openstack_i.Base.{
  All, Bool, Bool-cases, List, [], arith, false, filter, get_elem?, inl, inr, length, refl, some,
  subst, suc, true, zero, ℕ, ◌+◌, ◌<◌, ◌==◌, ◌||◌, ◌∷◌, ◌≡◌, ◌≤◌,
}
use stack4things_openstack_i.Conductor.Ports.{range_from, remove}

unfoldable pub has_port : ℕ → List ℕ → Bool
has_port n [] = false
has_port n (x ∷ xs) = x == n || has_port n xs

-- no port stands twice
abbrev pub Distinct : List ℕ → Type 0
Distinct [] = Unit
Distinct (x ∷ xs) = (has_port x xs ≡ false) × Distinct xs

pub All-filter : (P : ℕ → Type 0) (p : ℕ → Bool) (xs : List ℕ) → All P xs → All P (filter p xs)
unfolding filter
All-filter P p [] a = tt
All-filter P p (x ∷ xs) a = elim (Bool-cases (p x)) [
  | inl e ↦ rw e (a.0, All-filter P p xs a.1)
  | inr e ↦ rw e (All-filter P p xs a.1)
]

pub All-filter_passed : (p : ℕ → Bool) (xs : List ℕ) → All (λ x. p x ≡ true) (filter p xs)
unfolding filter
All-filter_passed p [] = tt
All-filter_passed p (x ∷ xs) = elim (Bool-cases (p x)) [
  | inl e ↦ rw e (e, All-filter_passed p xs)
  | inr e ↦ rw e (All-filter_passed p xs)
]

-- nothing passes a test that finds nothing
pub All-filter_empty : (p : ℕ → Bool) (xs : List ℕ) → filter p xs ≡ [] → All (λ x. p x ≡ false) xs
unfolding filter
All-filter_empty p [] h = tt
All-filter_empty p (x ∷ xs) h = elim (Bool-cases (p x)) [
  | inl e ↦ absurd (cc (rw e at h))
  | inr e ↦ (e, All-filter_empty p xs (rw e at h))
]

has_port-filter :
    (p : ℕ → Bool) (n : ℕ) (xs : List ℕ) → has_port n xs ≡ false → has_port n (filter p xs) ≡ false
unfolding has_port filter
has_port-filter p n [] h = refl
has_port-filter p n (x ∷ xs) h = ground (arith, has_port-filter p n xs)

pub Distinct-filter : (p : ℕ → Bool) (xs : List ℕ) → Distinct xs → Distinct (filter p xs)
unfolding filter
Distinct-filter p [] d = tt
Distinct-filter p (x ∷ xs) d = elim (Bool-cases (p x)) [
  | inl e ↦ rw e (has_port-filter p x xs d.0, Distinct-filter p xs d.1)
  | inr e ↦ rw e (Distinct-filter p xs d.1)
]

pub range_from_bounds : (lo n : ℕ) → All (λ x. (lo ≤ x) × (x < lo + n)) (range_from lo n)
unfolding range_from
range_from_bounds lo zero = tt
range_from_bounds lo (suc n) = (
  (omega arith, omega arith),
  All-map _ (λ x h. (omega arith, omega arith)) (range_from_bounds (lo + 1) n),
)
  where
    All-map :
        (xs : List ℕ)
        → ((x : ℕ) → (lo + 1 ≤ x) × (x < lo + 1 + n) → (lo ≤ x) × (x < lo + suc n))
        → All (λ x. (lo + 1 ≤ x) × (x < lo + 1 + n)) xs
        → All (λ x. (lo ≤ x) × (x < lo + suc n)) xs
    All-map [] f a = tt
    All-map (x ∷ xs) f a = (f x a.0, All-map xs f a.1)

has_port_below : (m lo n : ℕ) → m < lo → has_port m (range_from lo n) ≡ false
unfolding has_port range_from
has_port_below m lo zero h = refl
has_port_below m lo (suc n) h = ground (arith, has_port_below m (lo + 1) n)

pub range_from-Distinct : (lo n : ℕ) → Distinct (range_from lo n)
unfolding range_from
range_from-Distinct lo zero = tt
range_from-Distinct lo (suc n) =
    (has_port_below lo (lo + 1) n (omega arith), range_from-Distinct (lo + 1) n)

pub All-remove : (P : ℕ → Type 0) (n : ℕ) (xs : List ℕ) → All P xs → All P (remove n xs)
unfolding remove
All-remove P n [] a = tt
All-remove P n (x ∷ xs) a = elim (Bool-cases (x == n)) [
  | inl e ↦ rw e a.1
  | inr e ↦ rw e (a.0, All-remove P n xs a.1)
]

has_port-remove : (m n : ℕ) (xs : List ℕ) → has_port m xs ≡ false → has_port m (remove n xs) ≡ false
unfolding has_port remove
has_port-remove m n [] h = refl
has_port-remove m n (x ∷ xs) h = ground (arith, has_port-remove m n xs)

pub Distinct-remove : (n : ℕ) (xs : List ℕ) → Distinct xs → Distinct (remove n xs)
unfolding remove
Distinct-remove n [] d = tt
Distinct-remove n (x ∷ xs) d = elim (Bool-cases (x == n)) [
  | inl e ↦ rw e d.1
  | inr e ↦ rw e (has_port-remove x n xs d.0, Distinct-remove n xs d.1)
]

-- what is removed from a list without repetition is gone
pub has_port-remove_self : (n : ℕ) (xs : List ℕ) → Distinct xs → has_port n (remove n xs) ≡ false
unfolding has_port remove
has_port-remove_self n [] d = refl
has_port-remove_self n (x ∷ xs) d = ground (arith, has_port-remove_self n xs d.1)

pub get_elem?-All :
    (P : ℕ → Type 0) (xs : List ℕ) (i n : ℕ) → All P xs → get_elem? xs i ≡ some n → P n
get_elem?-All P [] i n a h = absurd (cc h)
get_elem?-All P (x ∷ xs) zero n a h = let e : x ≡ n = cc in subst P e a.0
get_elem?-All P (x ∷ xs) (suc i) n a h = get_elem?-All P xs i n a.1 h

pub get_elem?-total : (xs : List ℕ) (i : ℕ) → i < length xs → (n : ℕ) × (get_elem? xs i ≡ some n)
get_elem?-total [] i h = absurd (omega arith)
get_elem?-total (x ∷ xs) zero h = (x, refl)
get_elem?-total (x ∷ xs) (suc i) h = get_elem?-total xs i (omega arith)
