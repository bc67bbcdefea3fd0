-- ===== src/Api/Utils/Laws.antt =====
-- The limit and the direction of a listing.
use stack4things_openstack_i.Action.{ok}
use stack4things_openstack_i.Api.Utils.{validate_limit, validate_sort_dir}
use stack4things_openstack_i.Base.{
  Bool-cases, Option, String, arith, eq_iff, inl, inr, negsuc, none, pos, some, str_eq, suc, zero,
  ℕ, ℤ, ◌<◌, ◌≡◌, ◌≤◌, ◌⊎◌,
}

pub validate_limit_bounds :
    (m n : ℕ) (l : Option ℤ) → 0 < m → validate_limit m l ≡ ok n → (0 < n) × (n ≤ m)
unfolding validate_limit
validate_limit_bounds m n none h e = ground arith
validate_limit_bounds m n (some (pos zero)) h e = ground arith
validate_limit_bounds m n (some (pos (suc k))) h e = ground arith
validate_limit_bounds m n (some (negsuc k)) h e = ground arith

pub validate_sort_dir_texts :
    (s d : String) → validate_sort_dir s ≡ ok d → (d ≡ s) × ((s ≡ "asc") ⊎ (s ≡ "desc"))
unfolding validate_sort_dir
validate_sort_dir_texts s d e = elim (Bool-cases (str_eq s "asc")) [
  | inl a ↦ (ground (arith, a, e), inl ((eq_iff s "asc").0 a))
  | inr a ↦ elim (Bool-cases (str_eq s "desc")) [
    | inl b ↦ (ground (arith, a, b, e), inr ((eq_iff s "desc").0 b))
    | inr b ↦ absurd (ground (arith, a, b, e))
  ]
]
