-- ===== src/Wamp/Sessions/Single.antt =====
-- At most one session of a board is valid: the invariant, and what writes to the sessions do to it.
use stack4things_openstack_i.Base.Counting.{
  All-append, All-filter, filter_comm, filter-none, length-filter, length-map,
}
use stack4things_openstack_i.Base.{
  All, Bool, Bool-cases, List, String, [], any, ap, arith, eq_iff, eq_ℤ, false, filter,
  filter-append, inl, inr, length, length-append, map, negsuc, not, pos, refl, subst, true, ℤ, ◌++◌,
  ◌∷◌, ◌≡◌, ◌≤◌,
}
use stack4things_openstack_i.Db.Engine.{Engine, rewrite}
use stack4things_openstack_i.Db.Laws.{IsNumber, filter-rewrite, filter-rewrite_lost}
use stack4things_openstack_i.Db.Query.{has}
use stack4things_openstack_i.Db.Schema.{Column, Row, Value, eq_value}
use stack4things_openstack_i.Wamp.Sessions.Joining.{valid_of}
use stack4things_openstack_i.Wamp.Sessions.Leaving.{invalid}

module _ ⦃E : Engine⦄ where
  -- No board has two valid sessions, and the primary keys are numbers, each used once.
  pub record IsSingle (rows : List Row) : Type 0 where
    pub one_valid : (u : String) → length (filter (valid_of (Value.str u)) rows) ≤ 1
    pub numbers : All (λ r. IsNumber (r Column.id)) rows
    pub one_key : (z : ℤ) → length (filter (has Column.id (Value.int z)) rows) ≤ 1

  pub filter-IsSingle :
      (q : Row → Bool) (rows : List Row) → IsSingle rows → IsSingle (filter q rows)
  filter-IsSingle q rows h = record {
    one_valid = λ u.
        let p = valid_of (Value.str u) in
        rw (filter_comm p q rows) (omega (arith, length-filter q (filter p rows), h.one_valid u));
    numbers = All-filter (λ r. IsNumber (r Column.id)) q rows h.numbers;
    one_key = λ z.
        let p = has Column.id (Value.int z) in
        rw (filter_comm p q rows) (omega (arith, length-filter q (filter p rows), h.one_key z));
  }

  numbers-rewrite :
      (p : Row → Bool) (rows : List Row)
      → All (λ r. IsNumber (r Column.id)) rows
      → All (λ r. IsNumber (r Column.id)) (map (rewrite p invalid) rows)
  numbers-rewrite p [] h = tt
  numbers-rewrite p (r ∷ rows) (n, h) = elim (Bool-cases (p r)) [
    | inl e ↦ rw e (n, numbers-rewrite p rows h)
    | inr e ↦ rw e (n, numbers-rewrite p rows h)
  ]

  -- sessions are marked as not valid
  pub rewrite-IsSingle :
      (p : Row → Bool) (rows : List Row) → IsSingle rows → IsSingle (map (rewrite p invalid) rows)
  unfolding has eq_value eq_ℤ
  rewrite-IsSingle p rows h = record {
    one_valid = λ u.
        let v = valid_of (Value.str u) in
        rw (filter-rewrite_lost v p invalid (λ q. ground arith) rows)
          (omega (arith, length-filter (λ r. not (p r)) (filter v rows), h.one_valid u));
    numbers = numbers-rewrite p rows h.numbers;
    one_key = λ z.
        let k = has Column.id (Value.int z) in
        rw
          (
            filter-rewrite k p invalid (λ q. refl) rows,
            length-map (rewrite p invalid) (filter k rows),
          )
          (h.one_key z);
  }

  pub eq_value-text : (v : Value) (u : String) → eq_value v (Value.str u) ≡ true → v ≡ Value.str u
  unfolding eq_value
  eq_value-text (Value.str s) u h = ap Value.str ((eq_iff s u).0 h)
  eq_value-text Value.null u h = cc
  eq_value-text (Value.bool b) u h = cc
  eq_value-text (Value.int z) u h = cc
  eq_value-text (Value.dict f) u h = cc

  eq_value-number :
      (v : Value) (z : ℤ) → IsNumber v → eq_value v (Value.int z) ≡ true → v ≡ Value.int z
  unfolding eq_value eq_ℤ
  eq_value-number (Value.int (pos m)) (pos n) h e = ap (λ k. Value.int (pos k)) (ground arith)
  eq_value-number (Value.int (negsuc m)) (negsuc n) h e =
      ap (λ k. Value.int (negsuc k)) (ground arith)
  eq_value-number (Value.int (pos m)) (negsuc n) h e = cc
  eq_value-number (Value.int (negsuc m)) (pos n) h e = cc
  eq_value-number Value.null z h e = absurd h
  eq_value-number (Value.bool b) z h e = absurd h
  eq_value-number (Value.str s) z h e = absurd h
  eq_value-number (Value.dict f) z h e = absurd h

  one_more :
      (rows : List Row) (r : Row) (u : String)
      → length (filter (valid_of (Value.str u)) rows) ≤ 1
      → (r Column.board_uuid ≡ Value.str u → filter (valid_of (Value.str u)) rows ≡ [])
      → length (filter (valid_of (Value.str u)) (rows ++ r ∷ [])) ≤ 1
  unfolding has filter
  one_more rows r u l free =
      rw (filter-append (valid_of (Value.str u)) rows (r ∷ []))
        (elim (Bool-cases (eq_value (r Column.board_uuid) (Value.str u))) [
          | inl e ↦
              rw (free (eq_value-text (r Column.board_uuid) u e))
                (length-filter (valid_of (Value.str u)) (r ∷ []))
          | inr e ↦
              rw (e, length-append (filter (valid_of (Value.str u)) rows) []) (omega (arith, l))
        ])

  one_key_more :
      (rows : List Row) (r : Row) (z : ℤ)
      → IsNumber (r Column.id)
      → any (λ q. eq_value (q Column.id) (r Column.id)) rows ≡ false
      → length (filter (has Column.id (Value.int z)) rows) ≤ 1
      → length (filter (has Column.id (Value.int z)) (rows ++ r ∷ [])) ≤ 1
  unfolding has filter
  one_key_more rows r z n fresh l =
      let k = has Column.id (Value.int z) in
      rw (filter-append k rows (r ∷ [])) (elim (Bool-cases (eq_value (r Column.id) (Value.int z))) [
        | inl e ↦
            let none_there : any k rows ≡ false =
              subst (λ v. any (λ q. eq_value (q Column.id) v) rows ≡ false)
                (eq_value-number (r Column.id) z n e) fresh in
            rw (filter-none k rows none_there) (length-filter k (r ∷ []))
        | inr e ↦ rw (e, length-append (filter k rows) []) (omega (arith, l))
      ])

  -- a row with a key of its own is added, of a board with no valid session
  pub append-IsSingle :
      (rows : List Row) (r : Row)
      → IsSingle rows
      → IsNumber (r Column.id)
      → any (λ q. eq_value (q Column.id) (r Column.id)) rows ≡ false
      → ((u : String)
          → r Column.board_uuid ≡ Value.str u
          → filter (valid_of (Value.str u)) rows ≡ [])
      → IsSingle (rows ++ r ∷ [])
  append-IsSingle rows r h n fresh free = record {
    one_valid = λ u. one_more rows r u (h.one_valid u) (free u);
    numbers = All-append (λ q. IsNumber (q Column.id)) rows (r ∷ []) h.numbers (n, tt);
    one_key = λ z. one_key_more rows r z n fresh (h.one_key z);
  }
