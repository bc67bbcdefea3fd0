-- ===== src/Conductor/Vifs/Drawing.antt =====
-- The choice of a number in create_port_on_board.
use stack4things_openstack_i.Action.{drop_draw}
use stack4things_openstack_i.Base.{
  ==_refl, Bool-cases, List, Option-cases, [], arith, false, get_elem?, inl, inr, length, none,
  refl, some, subst, suc, zero, ℕ, ◌+◌, ◌<◌, ◌==◌, ◌∷◌, ◌≡◌, ◌≤◌,
}
use stack4things_openstack_i.Conductor.Vifs.{free_tcp_port, tcp_port}

get_elem?-before :
    (xs : List ℕ) (i j p : ℕ) → get_elem? xs i ≡ none → get_elem? xs j ≡ some p → j < i
get_elem?-before [] i j p e f = cc
get_elem?-before (x ∷ xs) zero j p e f = cc
get_elem?-before (x ∷ xs) (suc i) zero p e f = omega arith
get_elem?-before (x ∷ xs) (suc i) (suc j) p e f =
    let before = get_elem?-before xs i j p e f in omega arith

get_elem?-length : (xs : List ℕ) (i : ℕ) → length xs ≤ i → get_elem? xs i ≡ none
get_elem?-length [] i h = refl
get_elem?-length (x ∷ xs) zero h = absurd (omega arith)
get_elem?-length (x ∷ xs) (suc i) h = get_elem?-length xs i (omega arith)

-- the elements at the indices from a first one to below a last one are other numbers
Differ : List ℕ → ℕ → ℕ → ℕ → Type 0
Differ ports first last num =
    (j p : ℕ) → first ≤ j → j < last → get_elem? ports j ≡ some p → (p == num) ≡ false

Differ-more :
    (ports : List ℕ) (i q num : ℕ)
    → Differ ports 1 i num
    → get_elem? ports i ≡ some q
    → (q == num) ≡ false
    → Differ ports 1 (i + 1) num
unfolding Differ
Differ-more ports i q num d f g j p l b e = elim (Bool-cases (j == i)) [
  | inl s ↦ let here : j ≡ i = ground (arith, s) in let same : p ≡ q = cc in rw same g
  | inr s ↦ d j p l (ground (arith, s)) e
]

module _ (ports : List ℕ) (n : ℕ) (ds : List ℕ) where
  loop_apart :
      (fuel i num : ℕ) (draws : List ℕ)
      → Differ ports 1 i num
      → free_tcp_port fuel ports i num draws ≡ some (n, ds)
      → (j p : ℕ) → 1 ≤ j
      → get_elem? ports j ≡ some p
      → (p == n) ≡ false
  unfolding free_tcp_port Differ
  loop_apart zero i num draws d h j p l e = cc
  loop_apart (suc fuel) i num draws d h j p l e = elim (Option-cases (get_elem? ports i)) [
    | inl f ↦
        let same : num ≡ n = ground (arith, f, h) in
        subst (λ m. (p == m) ≡ false) same (d j p l (get_elem?-before ports i j p f e) e)
    | inr (q, f) ↦ elim (Bool-cases (q == num)) [
      | inl g ↦
          loop_apart fuel 1 (tcp_port draws) (drop_draw draws) (λ k m a b c. absurd (omega arith))
            (ground (arith, f, g)) j p l e
      | inr g ↦
          loop_apart fuel (i + 1) num draws (Differ-more ports i q num d f g) (ground (arith, f, g))
            j p l e
    ]
  ]

  -- The number that the loop ends with is none of those at the indices from 1 of Port on.
  pub free_tcp_port_apart :
      (fuel num : ℕ) (draws : List ℕ)
      → free_tcp_port fuel ports 0 num draws ≡ some (n, ds)
      → (j p : ℕ) → 1 ≤ j
      → get_elem? ports j ≡ some p
      → (p == n) ≡ false
  unfolding Differ
  free_tcp_port_apart fuel num draws =
      loop_apart fuel 0 num draws (λ k m a b c. absurd (omega arith))

get_elem?-bound : (xs : List ℕ) (i q : ℕ) → get_elem? xs i ≡ some q → i < length xs
get_elem?-bound [] i q e = cc
get_elem?-bound (x ∷ xs) zero q e = omega arith
get_elem?-bound (x ∷ xs) (suc i) q e = let rest = get_elem?-bound xs i q e in omega arith

module _ (ports : List ℕ) (num : ℕ) (draws : List ℕ) where
  loop_free :
      (fuel i : ℕ)
      → length ports < i + fuel
      → i ≤ length ports
      → ((j p : ℕ) → i ≤ j → get_elem? ports j ≡ some p → (p == num) ≡ false)
      → free_tcp_port fuel ports i num draws ≡ some (num, draws)
  unfolding free_tcp_port
  loop_free zero i b l d = absurd (omega arith)
  loop_free (suc fuel) i b l d = elim (Option-cases (get_elem? ports i)) [
    | inl f ↦ ground (arith, f)
    | inr (q, f) ↦
        let bound = get_elem?-bound ports i q f in
        let differs = d i q (omega arith) f in
        let rest =
          loop_free fuel (i + 1) (omega arith) (omega arith) (λ j p a e. d j p (omega arith) e) in
        ground (arith, f, differs, rest)
  ]

  -- A number that is not in Port is taken at once, with one step more than Port is long.
  pub free_tcp_port_first :
      (fuel : ℕ)
      → length ports < fuel
      → ((j p : ℕ) → get_elem? ports j ≡ some p → (p == num) ≡ false)
      → free_tcp_port fuel ports 0 num draws ≡ some (num, draws)
  free_tcp_port_first fuel b d = loop_free fuel 0 (omega arith) (omega arith) (λ j p a e. d j p e)

-- Where the number drawn is the first of Port, and drawn again, it is given out although it stands in
-- Port: after a clash the loop goes on behind the first.
pub free_tcp_port_clash :
    (p : ℕ) (ports draws : List ℕ) (fuel : ℕ)
    → tcp_port draws ≡ p
    → ((j q : ℕ) → get_elem? ports j ≡ some q → (q == p) ≡ false)
    → length ports + 2 < fuel
    → free_tcp_port fuel (p ∷ ports) 0 p draws ≡ some (p, drop_draw draws)
unfolding free_tcp_port
free_tcp_port_clash p ports draws zero t d b = absurd (omega arith)
free_tcp_port_clash p ports draws (suc fuel) t d b =
    let rest : free_tcp_port fuel (p ∷ ports) 1 p (drop_draw draws) ≡ some (p, drop_draw draws) =
      loop_free (p ∷ ports) p (drop_draw draws) fuel 1 (omega arith) (omega arith) later in
    rw (==_refl p, t) rest
  where
    later : (j q : ℕ) → 1 ≤ j → get_elem? (p ∷ ports) j ≡ some q → (q == p) ≡ false
    later zero q a e = absurd (omega arith)
    later (suc j) q a e = d j q e
