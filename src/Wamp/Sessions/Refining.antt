-- ===== src/Wamp/Sessions/Refining.antt =====
-- What connecting and leaving promise: the numbers of the live sessions of the boards.
use stack4things_openstack_i.Base.Counting.{filter-only}
use stack4things_openstack_i.Action.{World}
use stack4things_openstack_i.Base.{
  All, Bool, Bool-cases, List, String, [], ap, arith, eq_iff, eq_ℤ, false, filter, filter-append,
  if◌then◌else◌, inl, inr, length, map, not, refl, str_eq, subst, true, ◌++◌, ◌∙◌, ◌∷◌, ◌≡◌, ◌≤◌,
}
use stack4things_openstack_i.Db.Engine.{Engine, stored}
use stack4things_openstack_i.Db.Laws.{
  IsNumber-IsScalar, eq_value_refl, filter-rewrite_lost, has_self,
}
use stack4things_openstack_i.Db.Query.{has}
use stack4things_openstack_i.Db.Schema.{Column, Model, Row, Tables, Value, assign, eq_value}
use stack4things_openstack_i.Objects.Laws.{updated}
use stack4things_openstack_i.Wamp.Sessions.{Info, board_on_leave, connection}
use stack4things_openstack_i.Objects.{Object, str_or_none}
use stack4things_openstack_i.Wamp.Sessions.Joining.{
  Accepts, HasKey, IsKnown, connection_lem, connection_opens, marked, row_lem, session_values,
  valid_of,
}
use stack4things_openstack_i.Wamp.Sessions.Leaving.{IsOpen, board_on_leave_lem, invalid}
use stack4things_openstack_i.Wamp.Sessions.Single.{IsSingle, eq_value-text}

-- what is left of a list by a test is not touched by a second test that passes none of it
filter-apart :
    {A : Type 0} (p q : A → Bool) (xs : List A)
    → filter p (filter q xs) ≡ []
    → filter (λ x. not (q x)) (filter p xs) ≡ filter p xs
unfolding filter
filter-apart p q [] h = refl
filter-apart p q (x ∷ xs) h = ground (arith, filter-apart p q xs)

append_none : {A : Type 0} (xs : List A) → xs ++ [] ≡ xs
append_none [] = refl
append_none (x ∷ xs) = ap (λ ys. x ∷ ys) (append_none xs)

filter-passes :
    {A : Type 0} (p : A → Bool) (r : A) (xs rs : List A) → filter p xs ≡ r ∷ rs → p r ≡ true
unfolding filter
filter-passes p r [] rs h = cc
filter-passes p r (x ∷ xs) rs h = elim (Bool-cases (p x)) [
  | inl e ↦
      let here : x ∷ filter p xs ≡ r ∷ rs = ground (arith, e) in
      let same : x ≡ r = cc in subst (λ y. p y ≡ true) same e
  | inr e ↦ filter-passes p r xs rs (ground (arith, e))
]

-- The abstract state: for each board the numbers of its valid sessions.
abbrev pub Live : Type 0
Live = String → List Value

unfoldable pub live : Tables → Live
unfolding filter has
live t u =
    map (λ (r : Row). r Column.session_id) (filter (valid_of (Value.str u)) (t Model.session))

-- A board joins with a session, or leaves.
unfoldable pub join : String → Value → Live → Live
join u s l v = if str_eq u v then s ∷ [] else l v

unfoldable pub leave : String → Live → Live
leave u l v = if str_eq u v then [] else l v

module _ ⦃E : Engine⦄ where
  -- a session of one board is not one of another
  other_board :
      (u v : String) (r : Row)
      → str_eq u v ≡ false
      → has Column.board_uuid (Value.str u) r ≡ true
      → valid_of (Value.str v) r ≡ false
  unfolding has eq_value
  other_board u v r n h = let same = eq_value-text (r Column.board_uuid) u h in rw (same, n) refl

  mark_lost : (v : String) (q : Row) → valid_of (Value.str v) (assign invalid q) ≡ false
  unfolding has eq_value eq_ℤ
  mark_lost v q = ground arith

  -- marking a session of one board leaves the valid sessions of another
  mark_other :
      (w : World) (u v : String) (r : Row)
      → str_eq u v ≡ false
      → has Column.board_uuid (Value.str u) r ≡ true
      → filter (has Column.id (r Column.id)) (w.tables Model.session) ≡ r ∷ []
      → filter (valid_of (Value.str v)) (updated w.tables Model.session r invalid Model.session)
        ≡ filter (valid_of (Value.str v)) (w.tables Model.session)
  unfolding filter
  mark_other w u v r n h only =
      let none_there : filter (valid_of (Value.str v)) (r ∷ []) ≡ [] =
        rw (other_board u v r n h) refl in
      filter-rewrite_lost (valid_of (Value.str v)) (has Column.id (r Column.id)) invalid
        (mark_lost v) (w.tables Model.session)
      ∙ filter-apart (valid_of (Value.str v)) (has Column.id (r Column.id)) (w.tables Model.session)
          (rw only none_there)

  module _ (w : World) (u : String) (b : Row) (olds : List Row) (k : IsKnown w (Value.str u) b olds)
      (s : Value) (info : Info) (row : Row) (t : Tables)
      (created : E.insert (marked w.tables olds) Model.session (session_values b s) ≡ stored row t)
      (o : Object) (accepts : Accepts info b o) where
    others_kept :
        (v : String)
        → str_eq u v ≡ false
        → (rs : List Row) → filter (valid_of (Value.str u)) (w.tables Model.session) ≡ rs
        → length rs ≤ 1
        → All (HasKey w) rs
        → filter (valid_of (Value.str v)) (marked w.tables rs Model.session)
          ≡ filter (valid_of (Value.str v)) (w.tables Model.session)
    others_kept v n [] h l a = refl
    others_kept v n (r ∷ []) h l a =
        let passes = filter-passes (valid_of (Value.str u)) r (w.tables Model.session) [] h in
        mark_other w u v r n (ground (arith, passes)) a.0.1
    others_kept v n (r ∷ q ∷ rs) h l a = absurd (omega arith)

    row_other : (v : String) → str_eq u v ≡ false → filter (valid_of (Value.str v)) (row ∷ []) ≡ []
    unfolding filter has
    row_other v n =
        let same : row Column.board_uuid ≡ Value.str u =
          rw (row_lem w (Value.str u) b olds k s info row t created) k.same_uuid in
        rw (other_board u v row n (rw same (eq_value_refl (Value.str u) tt))) refl

    after_lem :
        (v : String)
        → str_eq u v ≡ false
        → filter
            (valid_of (Value.str v))
            ((connection (Value.str u) s info w).1.tables Model.session)
          ≡ filter (valid_of (Value.str v)) (w.tables Model.session)
    after_lem v n =
        let q = valid_of (Value.str v) in
        let rows = marked w.tables olds Model.session in
        let all_rows =
          ap (λ (x : Tables). x Model.session)
            (E.insert_stored (marked w.tables olds) t Model.session (session_values b s) row
              created).1 in
        rw (connection_lem w (Value.str u) b olds k s info row t created o accepts) (
          ap (filter q) all_rows
          ∙ filter-append q rows (row ∷ [])
          ∙ rw (row_other v n) (
              append_none (filter q rows)
              ∙ others_kept v n olds k.valid_sessions k.at_most_one k.session_keys))

    -- A known board connects: its live session is the new one, and those of the other boards are
    -- the same. The premise `created` says that the database takes the new session, and `accepts`
    -- that the types of the board's fields accept the info.
    pub connection_refines :
        (v : String)
        → live (connection (Value.str u) s info w).1.tables v
          ≡ join u (str_or_none s) (live w.tables) v
    unfolding live join
    connection_refines v =
        let facts = connection_opens w (Value.str u) b olds k s info row t created o accepts in
        elim (Bool-cases (str_eq u v)) [
          | inl e ↦
              let same : u ≡ v = (eq_iff u v).0 e in
              rw e (
                subst
                  (λ x. live (connection (Value.str u) s info w).1.tables x ≡ str_or_none s ∷ [])
                  same (rw facts.1 (ap (λ x. x ∷ []) facts.2)))
          | inr e ↦ rw e (ap (map (λ (r : Row). r Column.session_id)) (after_lem v e))
        ]

  module _ (w : World) (s : Value) (u : String) (r b : Row) (o : IsOpen w s r b)
      (single : IsSingle (w.tables Model.session)) (of_board : r Column.board_uuid ≡ Value.str u)
      (valid : r Column.valid ≡ Value.bool true) where
    of_board-has : has Column.board_uuid (Value.str u) r ≡ true
    unfolding has
    of_board-has = rw of_board (eq_value_refl (Value.str u) tt)

    only_session : filter (valid_of (Value.str u)) (w.tables Model.session) ≡ r ∷ []
    unfolding has eq_value eq_ℤ
    only_session =
        filter-only (has Column.id (r Column.id)) (valid_of (Value.str u)) r
          (w.tables Model.session) o.one_session (rw (of_board-has, valid) refl)
          (single.one_valid u)

    none_left :
        filter (valid_of (Value.str u)) (updated w.tables Model.session r invalid Model.session)
        ≡ []
    unfolding filter
    none_left =
        filter-rewrite_lost (valid_of (Value.str u)) (has Column.id (r Column.id)) invalid
          (mark_lost u) (w.tables Model.session)
        ∙ rw only_session
            (ground (arith, has_self Column.id r (IsNumber-IsScalar (r Column.id) o.session_key)))

    -- A board leaves with its valid session, where no board has two: it has no live session any more,
    -- and those of the other boards are the same.
    pub board_on_leave_refines :
        (v : String) → live (board_on_leave s w).1.tables v ≡ leave u (live w.tables) v
    unfolding live leave
    board_on_leave_refines v = rw (board_on_leave_lem w s r b o) (elim (Bool-cases (str_eq u v)) [
      | inl e ↦
          let same : u ≡ v = (eq_iff u v).0 e in
          rw e (
            subst
              (λ x.
                map (λ (q : Row). q Column.session_id)
                  (filter (valid_of (Value.str x))
                    (updated w.tables Model.session r invalid Model.session))
                ≡ [])
              same (rw none_left refl))
      | inr e ↦ rw e (
          ap (map (λ (q : Row). q Column.session_id))
            (mark_other w u v r e of_board-has o.one_session))
    ])
