-- ===== src/Wamp/Sessions/Retrying.antt =====
-- A board that connects again with a session number that it has used before.
use stack4things_openstack_i.Action.{Exception, World, raised}
use stack4things_openstack_i.Base.{
  Bool, List, String, [], arith, filter, inl, inr, map, refl, ◌∙◌, ◌∷◌, ◌≡◌, ◌≢◌,
}
use stack4things_openstack_i.Db.Engine.{Engine, rewrite, stored}
use stack4things_openstack_i.Db.Laws.{Outcome-cases, any_of_filter, eq_value_comm, filter-rewrite}
use stack4things_openstack_i.Db.Query.{both, has}
use stack4things_openstack_i.Db.Schema.{
  Column, Model, Row, Tables, Value, conflict, is_null, same_key,
}
use stack4things_openstack_i.Objects.{changes_of}
use stack4things_openstack_i.Objects.Laws.{IsUuid-not_null, get_board_by_uuid_found}
use stack4things_openstack_i.Wamp.Sessions.{Info, connect_board, connection, open_session}
use stack4things_openstack_i.Objects.{str_or_none}
use stack4things_openstack_i.Wamp.Sessions.Joining.{
  IsKnown, invalidate_old_lem, marked, marked-board, marked_valid, session_values, valid_of,
}
use stack4things_openstack_i.Wamp.Sessions.Leaving.{invalid}

module _ ⦃E : Engine⦄ (w : World) (u : Value) (b : Row) (olds : List Row) (k : IsKnown w u b olds)
    (x : String) (info : Info) where
  abbrev used : Row → Bool
  used = both (has Column.session_id (Value.str x)) (has Column.board_uuid u)

  -- the number stays used when the old session is marked
  marked-used :
      (q : Row) (qs : List Row)
      → filter used (w.tables Model.session) ≡ q ∷ qs
      → (r : Row) × (rs : List Row) × (filter used (marked w.tables olds Model.session) ≡ r ∷ rs)
  unfolding has
  marked-used q qs h = go olds
    where
      go :
          (rows : List Row)
          → (r : Row) × (rs : List Row) × (filter used (marked w.tables rows Model.session)
              ≡ r ∷ rs)
      go [] = (q, qs, h)
      go (r ∷ rows) = (
        rewrite (has Column.id (r Column.id)) invalid q,
        map (rewrite (has Column.id (r Column.id)) invalid) qs,
        filter-rewrite used (has Column.id (r Column.id)) invalid (λ s. refl)
              (w.tables Model.session)
            ∙ rw h,
      )

  -- so the database does not take the session a second time
  not_stored :
      (q : Row) (qs : List Row) (row : Row) (t : Tables)
      → filter used (w.tables Model.session) ≡ q ∷ qs
      → E.insert (marked w.tables olds) Model.session (session_values b (Value.str x))
        ≢ stored row t
  unfolding conflict same_key has is_null str_or_none
  not_stored q qs row t h e =
      let facts = E.insert_stored _ t Model.session (session_values b (Value.str x)) row e in
      let (r, rs, m) = marked-used q qs h in
      let number : row Column.session_id ≡ Value.str x = rw facts.0 in
      let board : row Column.board_uuid ≡ u = rw facts.0 k.same_uuid in
      let clash =
        any_of_filter used (same_key (Column.session_id ∷ Column.board_uuid ∷ []) row)
          (marked w.tables olds Model.session) r rs m
          (λ s hit. ground (
            arith,
            number,
            board,
            IsUuid-not_null u k.uuid,
            eq_value_comm (Value.str x) (s Column.session_id),
            eq_value_comm u (s Column.board_uuid),
          )) in
      ground (arith, clash, facts.2)

  -- A board connects with a session number that it has used before: the method raises, and leaves
  -- the board without any valid session, its row as it was. So a board that repeats its connection
  -- loses the session that it had.
  pub connection_retried :
      (q : Row) (qs : List Row)
      → filter used (w.tables Model.session) ≡ q ∷ qs
      → ((e : Exception) × ((connection u (Value.str x) info w).0 ≡ raised e))
        × (filter (valid_of u) ((connection u (Value.str x) info w).1.tables Model.session) ≡ [])
        × ((connection u (Value.str x) info w).1.tables Model.board ≡ w.tables Model.board)
  unfolding connection connect_board open_session changes_of
  connection_retried q qs h =
      let known = get_board_by_uuid_found w u b k.one_board in
      let old = invalidate_old_lem w u b olds k in
      let none_left = marked_valid w u b olds k in
      let same = marked-board w u b olds k in
      elim (Outcome-cases
        (E.insert (marked w.tables olds) Model.session (session_values b (Value.str x)))) [
          | inl (row, t, e) ↦ absurd (not_stored q qs row t h e)
          | inr (inl (cs, e)) ↦ (
            (Exception.db_duplicate_entry cs, ground (arith, known, old)),
            ground (arith, known, old, none_left),
            ground (arith, known, old, same),
          )
          | inr (inr e) ↦ (
            (Exception.db_reference_error, ground (arith, known, old)),
            ground (arith, known, old, none_left),
            ground (arith, known, old, same),
          )
        ]
