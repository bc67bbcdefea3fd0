-- ===== src/Common/HashRing/Sets.antt =====
-- Lists of hosts as sets: no repetition, membership, and counting.
use stack4things_openstack_i.Base.{
  All, Bool-cases, List, String, [], any, arith, eq_iff, false, if◌then◌else◌, inl, inr, length,
  refl, str_eq, suc, true, ◌++◌, ◌||◌, ◌∷◌, ◌≡◌, ◌≤◌, ◌⊎◌,
}
use stack4things_openstack_i.Common.HashRing.{is_in}

abbrev pub Distinct : List String → Type 0
Distinct [] = Unit
Distinct (h ∷ hs) = (is_in h hs ≡ false) × Distinct hs

pub str_eq_comm : (s t : String) → str_eq s t ≡ str_eq t s
str_eq_comm s t = ground (arith, eq_iff s t, eq_iff t s)

pub is_in-append :
    (h : String) (xs ys : List String) → is_in h (xs ++ ys) ≡ (is_in h xs || is_in h ys)
unfolding is_in any
is_in-append h [] ys = refl
is_in-append h (x ∷ xs) ys = ground (arith, is_in-append h xs ys)

-- adding what is not there keeps a set
pub Distinct-append_one :
    (xs : List String) (h : String) → Distinct xs → is_in h xs ≡ false → Distinct (xs ++ h ∷ [])
unfolding is_in any
Distinct-append_one [] h d n = (refl, tt)
Distinct-append_one (x ∷ xs) h d n = (
  ground (arith, is_in-append x xs (h ∷ []), str_eq_comm x h),
  Distinct-append_one xs h d.1 (ground arith),
)

-- members of one list are members of another
abbrev pub Within : List String → List String → Type 0
Within xs ys = All (λ x. is_in x ys ≡ true) xs

pub Distinct-append :
    (xs ys : List String)
    → Distinct xs
    → Distinct ys
    → All (λ x. is_in x ys ≡ false) xs
    → Distinct (xs ++ ys)
Distinct-append [] ys d e a = e
Distinct-append (x ∷ xs) ys d e a =
    (ground (arith, is_in-append x xs ys), Distinct-append xs ys d.1 e a.1)

pub Within-append : (xs ys zs : List String) → Within xs zs → Within ys zs → Within (xs ++ ys) zs
Within-append [] ys zs a b = b
Within-append (x ∷ xs) ys zs a b = (a.0, Within-append xs ys zs a.1 b)

drop_one : String → List String → List String
drop_one h [] = []
drop_one h (x ∷ xs) = if str_eq h x then xs else x ∷ drop_one h xs

length-drop_one :
    (h : String) (xs : List String) → is_in h xs ≡ true → suc (length (drop_one h xs)) ≡ length xs
unfolding is_in any drop_one
length-drop_one h [] i = cc
length-drop_one h (x ∷ xs) i = ground (arith, length-drop_one h xs)

is_in-drop_one :
    (g h : String) (xs : List String)
    → str_eq g h ≡ false
    → is_in g xs ≡ true
    → is_in g (drop_one h xs) ≡ true
unfolding is_in any drop_one
is_in-drop_one g h [] n i = i
is_in-drop_one g h (x ∷ xs) n i =
    ground (arith, is_in-drop_one g h xs n, eq_iff g h, eq_iff g x, eq_iff h x)

Within-drop_one :
    (h : String) (hs xs : List String)
    → is_in h hs ≡ false
    → Within hs xs
    → Within hs (drop_one h xs)
unfolding is_in any
Within-drop_one h [] xs n a = tt
Within-drop_one h (g ∷ hs) xs n a = (
  is_in-drop_one g h xs (ground (arith, str_eq_comm g h)) a.0,
  Within-drop_one h hs xs (ground arith) a.1,
)

-- A set whose members all stand in a list is no longer than it.
pub length-Within : (hs xs : List String) → Distinct hs → Within hs xs → length hs ≤ length xs
length-Within [] xs d a = omega arith
length-Within (h ∷ hs) xs d a = omega (
  arith,
  length-drop_one h xs a.0,
  length-Within hs (drop_one h xs) d.1 (Within-drop_one h hs xs d.0 a.1),
)

-- A member that a list misses, or all are in it.
pub missing :
    (P : String → Type 0) (hs xs : List String)
    → All P hs
    → ((h : String) × P h × (is_in h xs ≡ false)) ⊎ Within hs xs
missing P [] xs p = inr tt
missing P (h ∷ hs) xs p = elim (Bool-cases (is_in h xs)) [
  | inr n ↦ inl (h, p.0, n)
  | inl i ↦ elim (missing P hs xs p.1) [ inl m ↦ inl m | inr a ↦ inr (i, a) ]
]
