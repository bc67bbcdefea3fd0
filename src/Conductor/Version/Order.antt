-- ===== src/Conductor/Version/Order.antt =====
-- What versionCompare makes of two versions.
use stack4things_openstack_i.Action.{ok}
use stack4things_openstack_i.Base.{
  List, [], if◌then◌else◌, ltb, negsuc, pos, suc, zero, ℕ, ℤ, ◌==◌, ◌∷◌, ◌≡◌,
}
use stack4things_openstack_i.Conductor.Version.{parse_int}

-- the numbers that the parts stand for
abbrev pub Stands : List (List ℕ) → List ℕ → Type 0
Stands [] [] = Unit
Stands [] (n ∷ ns) = ⊥
Stands (x ∷ xs) [] = ⊥
Stands (x ∷ xs) (n ∷ ns) = (parse_int x ≡ ok n) × Stands xs ns

-- the lexicographic order of lists of numbers: -1 for a smaller one, 1 for a greater one
unfoldable pub order : List ℕ → List ℕ → ℤ
order [] ms = pos 0
order (n ∷ ns) [] = pos 1
order (n ∷ ns) (m ∷ ms) =
    let rest = order ns ms in if n == m then rest else if ltb n m then negsuc 0 else pos 1

-- the sign turned
unfoldable pub opposite : ℤ → ℤ
opposite (pos zero) = pos 0
opposite (pos (suc n)) = negsuc n
opposite (negsuc n) = pos (suc n)
