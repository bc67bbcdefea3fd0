-- ===== src/Db/Laws.antt =====
-- What the shapes of Db/Query.antt do to the tables, from the laws of the engine.
use stack4things_openstack_i.Action.{Exception, World, ok, raised}
use stack4things_openstack_i.Base.{
  ==_refl, Bool, List, [], any, arith, eq_iff, eq_refl, eq_ℤ, false, filter, inl, inr, length, map,
  negsuc, not, pos, refl, true, ℤ, ℕ, ◌∷◌, ◌≡◌, ◌⊎◌,
}
use stack4things_openstack_i.Db.Engine.{Engine, Outcome, duplicate, refused, rewrite, stored}
use stack4things_openstack_i.Db.Query.{add_identity_filter, do_update, has, one, update_rows}
use stack4things_openstack_i.Db.Schema.{
  Column, Model, Row, Tables, Value, Values, assign, bool_int, eq_value, keyless, set_rows,
}

-- Keys are compared by value: a scalar equals itself.
abbrev pub IsScalar : Value → Type 0
IsScalar (Value.dict f) = ⊥
IsScalar v = Unit

eq_ℤ-refl : (z : ℤ) → eq_ℤ z z ≡ true
unfolding eq_ℤ
eq_ℤ-refl (pos n) = ==_refl n
eq_ℤ-refl (negsuc n) = ==_refl n

pub eq_value_refl : (v : Value) → IsScalar v → eq_value v v ≡ true
unfolding eq_value
eq_value_refl Value.null h = refl
eq_value_refl (Value.bool true) h = refl
eq_value_refl (Value.bool false) h = refl
eq_value_refl (Value.int z) h = eq_ℤ-refl z
eq_value_refl (Value.str s) h = eq_refl s
eq_value_refl (Value.dict f) h = absurd h

pub has_self : (c : Column) (r : Row) → IsScalar (r c) → has c (r c) r ≡ true
unfolding has
has_self c r h = eq_value_refl (r c) h

module _ ⦃E : Engine⦄ where
  module _ (w : World) (m : Model) (p : Row → Bool) where
    pub one_found : (r : Row) → filter p (w.tables m) ≡ r ∷ [] → one m p w ≡ (ok r, w)
    unfolding one
    one_found r h = simp (E.select_lem, h)

    pub one_missing : filter p (w.tables m) ≡ [] → one m p w ≡ (raised Exception.no_result_found, w)
    unfolding one
    one_missing h = simp (E.select_lem, h)

    pub one_many :
        (r q : Row) (rs : List Row)
        → filter p (w.tables m) ≡ r ∷ q ∷ rs
        → one m p w ≡ (raised Exception.multiple_results_found, w)
    unfolding one
    one_many r q rs h = simp (E.select_lem, h)

    pub update_rows_lem :
        (vs : Values)
        → keyless vs ≡ true
        → update_rows m p vs w ≡ (
          ok (length (filter p (w.tables m))),
          record w { tables = set_rows w.tables m (map (rewrite p vs) (w.tables m)) },
        )
    unfolding update_rows
    update_rows_lem vs k = simp (E.update_keyless w.tables m p vs k)

  -- An update of one row that is found rewrites the rows with its primary key, and nothing else.
  pub do_update_lem :
      (w : World) (m : Model) (nf : Value → Exception) (ident : Value) (vs : Values) (r : Row)
      (p : Row → Bool)
      → add_identity_filter ident ≡ ok p
      → filter p (w.tables m) ≡ r ∷ []
      → keyless vs ≡ true
      → do_update m nf ident vs w ≡ (
        ok (assign vs r),
        record w {
          tables =
              set_rows w.tables m (map (rewrite (has Column.id (r Column.id)) vs) (w.tables m));
        },
      )
  unfolding do_update
  do_update_lem w m nf ident vs r p hi hr k =
      ground (arith, one_found w m p r hr, update_rows_lem w m (has Column.id (r Column.id)) vs k)

  -- The same for any update that the database takes, of keys too.
  pub do_update_stored :
      (w : World) (m : Model) (nf : Value → Exception) (ident : Value) (vs : Values) (r : Row)
      (p : Row → Bool) (n : ℕ) (t : Tables)
      → add_identity_filter ident ≡ ok p
      → filter p (w.tables m) ≡ r ∷ []
      → E.update w.tables m (has Column.id (r Column.id)) vs ≡ stored n t
      → do_update m nf ident vs w ≡ (
        ok (assign vs r),
        record w {
          tables =
              set_rows w.tables m (map (rewrite (has Column.id (r Column.id)) vs) (w.tables m));
        },
      )
  unfolding do_update update_rows
  do_update_stored w m nf ident vs r p n t hi hr hs =
      let same = (E.update_stored w.tables t m (has Column.id (r Column.id)) vs n hs).1 in
      ground (arith, one_found w m p r hr, hs, same)

  -- Where no row is found, the tables stay as they were.
  pub do_update_missing :
      (w : World) (m : Model) (nf : Value → Exception) (ident : Value) (vs : Values)
      (p : Row → Bool)
      → add_identity_filter ident ≡ ok p
      → filter p (w.tables m) ≡ []
      → do_update m nf ident vs w ≡ (raised (nf ident), w)
  unfolding do_update
  do_update_missing w m nf ident vs p hi hr = ground (arith, one_missing w m p hr)

-- Queries after an UPDATE.
module _ (p q : Row → Bool) (vs : Values) where
  -- a query that does not read the columns written finds the same rows, rewritten
  pub filter-rewrite :
      ((r : Row) → p (assign vs r) ≡ p r)
      → (rows : List Row) → filter p (map (rewrite q vs) rows) ≡ map (rewrite q vs) (filter p rows)
  unfolding filter
  filter-rewrite h [] = refl
  filter-rewrite h (r ∷ rows) = ground (arith, h r, filter-rewrite h rows)

  -- a query that a written row fails finds only rows that were not written
  pub filter-rewrite_lost :
      ((r : Row) → p (assign vs r) ≡ false)
      → (rows : List Row)
      → filter p (map (rewrite q vs) rows) ≡ filter (λ r. not (q r)) (filter p rows)
  unfolding filter
  filter-rewrite_lost h [] = refl
  filter-rewrite_lost h (r ∷ rows) = ground (arith, h r, filter-rewrite_lost h rows)

-- The primary keys of a table are numbers, each used once.
abbrev pub IsNumber : Value → Type 0
IsNumber (Value.int z) = Unit
IsNumber v = ⊥

pub IsNumber-IsScalar : (v : Value) → IsNumber v → IsScalar v
IsNumber-IsScalar (Value.int z) h = tt
IsNumber-IsScalar Value.null h = absurd h
IsNumber-IsScalar (Value.bool b) h = absurd h
IsNumber-IsScalar (Value.str s) h = absurd h
IsNumber-IsScalar (Value.dict f) h = absurd h

pub Outcome-cases :
    {A : Type 0} (o : Outcome A)
    → ((a : A) × (t : Tables) × (o ≡ stored a t))
      ⊎ ((cs : List Column) × (o ≡ duplicate cs))
      ⊎ (o ≡ refused)
Outcome-cases (stored a t) = inl (a, t, refl)
Outcome-cases (duplicate cs) = inr (inl (cs, refl))
Outcome-cases refused = inr (inr refl)

eq_ℤ_comm : (a b : ℤ) → eq_ℤ a b ≡ eq_ℤ b a
unfolding eq_ℤ
eq_ℤ_comm (pos a) (pos b) = ground arith
eq_ℤ_comm (negsuc a) (negsuc b) = ground arith
eq_ℤ_comm (pos a) (negsuc b) = refl
eq_ℤ_comm (negsuc a) (pos b) = refl

pub eq_value_comm : (a b : Value) → eq_value a b ≡ eq_value b a
unfolding eq_value
eq_value_comm (Value.bool a) (Value.bool b) = eq_ℤ_comm (bool_int a) (bool_int b)
eq_value_comm (Value.bool a) (Value.int z) = eq_ℤ_comm (bool_int a) z
eq_value_comm (Value.int z) (Value.bool b) = eq_ℤ_comm z (bool_int b)
eq_value_comm (Value.int y) (Value.int z) = eq_ℤ_comm y z
eq_value_comm (Value.str s) (Value.str u) = ground (arith, eq_iff s u, eq_iff u s)
eq_value_comm Value.null Value.null = refl
eq_value_comm (Value.dict f) (Value.dict g) = refl
eq_value_comm _ _ = refl

pub any_of_filter :
    (p q : Row → Bool) (rows : List Row) (r : Row) (rs : List Row)
    → filter p rows ≡ r ∷ rs
    → ((s : Row) → p s ≡ true → q s ≡ true)
    → any q rows ≡ true
unfolding filter any
any_of_filter p q [] r rs h imp = cc
any_of_filter p q (s ∷ rows) r rs h imp = ground (arith, imp s, any_of_filter p q rows r rs)
