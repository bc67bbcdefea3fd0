-- ===== src/Wamp/Sessions/Leaving.antt =====
-- What board_on_leave of iotronic/wamp/functions.py does.
use stack4things_openstack_i.Action.{World, ok}
use stack4things_openstack_i.Base.{
  All, List, [], arith, false, filter, length, refl, true, ◌∙◌, ◌∷◌, ◌≡◌, ◌≤◌,
}
use stack4things_openstack_i.Db.Engine.{Engine}
use stack4things_openstack_i.Db.Laws.{IsNumber, IsNumber-IsScalar, filter-rewrite, has_self}
use stack4things_openstack_i.Db.Query.{has}
use stack4things_openstack_i.Db.Schema.{
  Column, Model, Row, Tables, Value, Values, set_column, set_rows, truthy,
}
use stack4things_openstack_i.Base.{String, some}
use stack4things_openstack_i.Objects.{changes_of, from_db_object, get_session, number_text}
use stack4things_openstack_i.Objects.Laws.{
  IsUuid, get_board_by_uuid_found, save_board_lem, save_session_lem, updated,
}
use stack4things_openstack_i.Wamp.Sessions.{board_on_leave, close_session}

module _ ⦃E : Engine⦄ where
  -- A board leaves with a session that is no longer valid, or with one that was never opened:
  -- nothing changes, so a late leave of an old session does not put a board offline that has
  -- reconnected.
  pub board_on_leave_stale :
      (w : World) (s : Value) (n : String) (rows : List Row)
      → number_text s ≡ some n
      → filter (has Column.session_id (Value.str n)) (w.tables Model.session) ≡ rows
      → length rows ≤ 1
      → All (λ r. truthy (r Column.valid) ≡ false) rows
      → board_on_leave s w ≡ (ok tt, w)
  unfolding board_on_leave get_session
  board_on_leave_stale w s n [] e h l a =
      ground (arith, e, E.select_lem w.tables Model.session (has Column.session_id (Value.str n)))
  board_on_leave_stale w s n (r ∷ []) e h l a =
      ground (arith, e, E.select_lem w.tables Model.session (has Column.session_id (Value.str n)))
  board_on_leave_stale w s n (r ∷ q ∷ rows) e h l a = absurd (omega arith)

  -- what is written to a session that is closed, and to its board
  abbrev pub invalid : Values
  invalid = (Column.valid, Value.bool false) ∷ []

  abbrev pub offline : Values
  offline = (Column.status, Value.str "offline") ∷ []

  -- A session number, as a text or not, with one session, valid, of one board that is in the tables; keys are unique.
  pub record IsOpen (w : World) (s : Value) (r b : Row) : Type 0 where
    pub number : String
    pub numbered : number_text s ≡ some number
    pub listed : filter (has Column.session_id (Value.str number)) (w.tables Model.session) ≡ r ∷ []
    pub valid : truthy (r Column.valid) ≡ true
    pub session_key : IsNumber (r Column.id)
    pub one_session : filter (has Column.id (r Column.id)) (w.tables Model.session) ≡ r ∷ []
    pub uuid : IsUuid (r Column.board_uuid)
    pub one_board : filter (has Column.uuid (r Column.board_uuid)) (w.tables Model.board) ≡ b ∷ []
    pub same_uuid : b Column.uuid ≡ r Column.board_uuid
    pub board_key : IsNumber (b Column.id)

  abbrev left_tables : Tables → Row → Row → Tables
  left_tables t r b = updated (updated t Model.session r invalid) Model.board b offline

  module _ (w : World) (s : Value) (r b : Row) (o : IsOpen w s r b) where
    pub get_session_lem : get_session s w ≡ (ok (from_db_object r), w)
    unfolding get_session
    get_session_lem = ground (
      arith,
      o.numbered,
      E.select_lem w.tables Model.session (has Column.session_id (Value.str o.number)),
      o.listed,
    )

    pub close_session_lem :
        close_session (from_db_object r) w ≡ (ok tt, record w { tables = left_tables w.tables r b })
    unfolding close_session changes_of
    close_session_lem =
        let v = record w { tables = updated w.tables Model.session r invalid } in
        let closing =
          save_session_lem w r (set_column r Column.valid (Value.bool false)) (Column.valid ∷ [])
            refl o.session_key o.one_session in
        let leaving =
          save_board_lem v b (set_column b Column.status (Value.str "offline")) (Column.status ∷ [])
            refl (rw o.same_uuid o.uuid) refl (rw o.same_uuid o.one_board) in
        ground (
          arith,
          o.valid,
          closing,
          leaving,
          get_board_by_uuid_found v (r Column.board_uuid) b o.one_board,
        )

    pub board_on_leave_lem :
        board_on_leave s w ≡ (ok tt, record w { tables = left_tables w.tables r b })
    unfolding board_on_leave
    board_on_leave_lem = ground (arith, get_session_lem, close_session_lem)

    -- A board leaves with its valid session: the session is no longer valid, its board is offline,
    -- and nothing but the tables of sessions and boards is changed.
    pub board_on_leave_open :
        ((board_on_leave s w).0 ≡ ok tt)
        × (filter
              (has Column.session_id (Value.str o.number))
              ((board_on_leave s w).1.tables Model.session)
            ≡ set_column r Column.valid (Value.bool false) ∷ [])
        × (filter
              (has Column.uuid (r Column.board_uuid))
              ((board_on_leave s w).1.tables Model.board)
            ≡ set_column b Column.status (Value.str "offline") ∷ [])
        × ((board_on_leave s w).1 ≡ record w {
          tables =
              set_rows
                (set_rows w.tables Model.session ((board_on_leave s w).1.tables Model.session))
                Model.board
                ((board_on_leave s w).1.tables Model.board);
        })
    unfolding has
    board_on_leave_open = rw board_on_leave_lem (
      refl,
      filter-rewrite (has Column.session_id (Value.str o.number)) (has Column.id (r Column.id))
            invalid (λ q. refl) (w.tables Model.session)
          ∙ rw o.listed (
              ground (arith, has_self Column.id r (IsNumber-IsScalar (r Column.id) o.session_key))),
      filter-rewrite (has Column.uuid (r Column.board_uuid)) (has Column.id (b Column.id)) offline
            (λ q. refl) (w.tables Model.board)
          ∙ rw o.one_board
              (ground (arith, has_self Column.id b (IsNumber-IsScalar (b Column.id) o.board_key))),
      refl,
    )
