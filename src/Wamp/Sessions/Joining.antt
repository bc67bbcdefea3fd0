-- ===== src/Wamp/Sessions/Joining.antt =====
-- What `connection` of iotronic/wamp/functions.py does.
use stack4things_openstack_i.Action.{World, ok}
use stack4things_openstack_i.Base.{
  All, Bool, List, [], ap, arith, eq_ℤ, false, filter, filter-append, length, refl, true, ◌∙◌, ◌∷◌,
  ◌≡◌, ◌≤◌,
}
use stack4things_openstack_i.Db.Engine.{Engine, new_row, stored}
use stack4things_openstack_i.Db.Laws.{
  IsNumber, IsNumber-IsScalar, eq_value_refl, filter-rewrite, filter-rewrite_lost, has_self,
  one_found, one_missing,
}
use stack4things_openstack_i.Db.Query.{both, has}
use stack4things_openstack_i.Db.Schema.{
  Column, Model, Row, Tables, Value, Values, assign, assigns, eq_value, keyless, set_column,
}
use stack4things_openstack_i.Action.{Exception, raised}
use stack4things_openstack_i.Objects.{str_or_none}
use stack4things_openstack_i.Objects.{Object, changes_of, from_db_object, obj_get_changes, set_attr}
use stack4things_openstack_i.Objects.Laws.{
  IsUuid, IsUuid-IsScalar, get_board_by_uuid_found, save_board_lem, save_session_lem, updated,
}
use stack4things_openstack_i.Wamp.Sessions.{
  Info, connect_board, connection, invalidate_old, open_session, wamp_success, with_info,
}
use stack4things_openstack_i.Wamp.Sessions.Leaving.{invalid}

-- the valid sessions of a board
abbrev pub valid_of : Value → Row → Bool
valid_of u = both (has Column.board_uuid u) (has Column.valid (Value.bool true))

abbrev pub online : Value
online = Value.str "online"

module _ ⦃E : Engine⦄ where
  abbrev pub session_values : Row → Value → Values
  session_values b s =
      (Column.board_id, b Column.id)
      ∷ (Column.board_uuid, b Column.uuid)
      ∷ (Column.session_id, str_or_none s)
      ∷ []

  -- The types of the board's fields accept the info: `o` is the board that is saved.
  abbrev pub Accepts : Info → Row → Object → Type 0
  Accepts info b o = with_info info (set_attr (from_db_object b) Column.status online) ≡ ok o

  -- Such a board has the status and no changed key, and keeps the uuid.
  accepted_lem :
      (info : Info) (b : Row) (o : Object)
      → Accepts info b o
      → (keyless (obj_get_changes o) ≡ true)
        × (assigns Column.uuid (obj_get_changes o) ≡ false)
        × (o.row Column.uuid ≡ b Column.uuid)
        × (assign (obj_get_changes o) b Column.status ≡ online)
        × ((r : Row) (u : Value)
            → has Column.uuid u (assign (obj_get_changes o) r) ≡ has Column.uuid u r)
  unfolding with_info obj_get_changes changes_of has
  accepted_lem info b o h = (
    ground (arith, h),
    ground (arith, h),
    ground (arith, h),
    ground (arith, h),
    λ r u. ground (arith, h),
  )

  -- the tables after the valid session that was found, if any, is marked
  abbrev pub marked : Tables → List Row → Tables
  marked t [] = t
  marked t (r ∷ rs) = updated t Model.session r invalid

  abbrev pub HasKey : World → Row → Type 0
  HasKey w r =
      IsNumber (r Column.id)
      × (filter (has Column.id (r Column.id)) (w.tables Model.session) ≡ r ∷ [])

  -- A board that is in the tables, with at most one valid session; keys are unique.
  pub record IsKnown (w : World) (u : Value) (b : Row) (olds : List Row) : Type 0 where
    pub uuid : IsUuid u
    pub one_board : filter (has Column.uuid u) (w.tables Model.board) ≡ b ∷ []
    pub same_uuid : b Column.uuid ≡ u
    pub board_key : IsNumber (b Column.id)
    pub valid_sessions : filter (valid_of u) (w.tables Model.session) ≡ olds
    pub at_most_one : length olds ≤ 1
    pub session_keys : All (HasKey w) olds

  module _ (w : World) (b : Row) where
    pub invalidate_old_none :
        filter (valid_of (b Column.uuid)) (w.tables Model.session) ≡ []
        → invalidate_old (from_db_object b) w ≡ (ok tt, w)
    unfolding invalidate_old
    invalidate_old_none h = ground (arith, one_missing w Model.session (valid_of (b Column.uuid)) h)

    pub invalidate_old_one :
        (r : Row)
        → filter (valid_of (b Column.uuid)) (w.tables Model.session) ≡ r ∷ []
        → HasKey w r
        → invalidate_old (from_db_object b) w
          ≡ (ok tt, record w { tables = updated w.tables Model.session r invalid })
    unfolding invalidate_old changes_of
    invalidate_old_one r h k = ground (
      arith,
      one_found w Model.session (valid_of (b Column.uuid)) r h,
      save_session_lem w r (set_column r Column.valid (Value.bool false)) (Column.valid ∷ []) refl
          k.0 k.1,
    )

  module _ (w : World) (u : Value) (b : Row) (olds : List Row) (k : IsKnown w u b olds) where
    pub invalidate_old_lem :
        invalidate_old (from_db_object b) w ≡ (ok tt, record w { tables = marked w.tables olds })
    invalidate_old_lem = go olds k.valid_sessions k.at_most_one k.session_keys
      where
        go :
            (rs : List Row)
            → filter (valid_of u) (w.tables Model.session) ≡ rs
            → length rs ≤ 1
            → All (HasKey w) rs
            → invalidate_old (from_db_object b) w
              ≡ (ok tt, record w { tables = marked w.tables rs })
        go [] h l a = invalidate_old_none w b (rw k.same_uuid h)
        go (r ∷ []) h l a = invalidate_old_one w b r (rw k.same_uuid h) a.0
        go (r ∷ q ∷ rs) h l a = absurd (omega arith)

    -- no valid session of the board is left
    pub marked_valid : filter (valid_of u) (marked w.tables olds Model.session) ≡ []
    unfolding has filter eq_value eq_ℤ
    marked_valid = go olds k.valid_sessions k.at_most_one k.session_keys
      where
        go :
            (rs : List Row)
            → filter (valid_of u) (w.tables Model.session) ≡ rs
            → length rs ≤ 1
            → All (HasKey w) rs
            → filter (valid_of u) (marked w.tables rs Model.session) ≡ []
        go [] h l a = h
        go (r ∷ []) h l a =
            filter-rewrite_lost (valid_of u) (has Column.id (r Column.id)) invalid
              (λ q. ground arith) (w.tables Model.session)
            ∙ rw h (ground (arith, has_self Column.id r (IsNumber-IsScalar (r Column.id) a.0.0)))
        go (r ∷ q ∷ rs) h l a = absurd (omega arith)

    pub marked-board : marked w.tables olds Model.board ≡ w.tables Model.board
    marked-board = go olds
      where
        go : (rs : List Row) → marked w.tables rs Model.board ≡ w.tables Model.board
        go [] = refl
        go (r ∷ rs) = refl

    module _ (s : Value) (info : Info) (row : Row) (t : Tables)
        (created : E.insert (marked w.tables olds) Model.session (session_values b s)
          ≡ stored row t) where
      open_session_lem :
          open_session (from_db_object b) s (record w { tables = marked w.tables olds })
          ≡ (ok (from_db_object row), record w { tables = t })
      unfolding open_session changes_of
      open_session_lem = ground (arith, created)

      board_kept : t Model.board ≡ w.tables Model.board
      board_kept =
          ap (λ (x : Tables). x Model.board)
            (E.insert_stored (marked w.tables olds) t Model.session (session_values b s) row
              created).1
          ∙ marked-board

      pub row_lem : row ≡ new_row E.new_id (marked w.tables olds) Model.session (session_values b s)
      row_lem =
          (E.insert_stored (marked w.tables olds) t Model.session (session_values b s) row
            created).0

      row_valid : valid_of u row ≡ true
      unfolding has eq_value eq_ℤ
      row_valid =
          rw (row_lem, k.same_uuid) (ground (arith, eq_value_refl u (IsUuid-IsScalar u k.uuid)))

      one_valid : filter (valid_of u) (t Model.session) ≡ row ∷ []
      unfolding filter
      one_valid =
          ap (λ (x : Tables). filter (valid_of u) (x Model.session))
            (E.insert_stored (marked w.tables olds) t Model.session (session_values b s) row
              created).1
          ∙ filter-append (valid_of u) (marked w.tables olds Model.session) (row ∷ [])
          ∙ rw (marked_valid, row_valid) refl

      rejected_lem :
          (e : Exception)
          → with_info info (set_attr (from_db_object b) Column.status online) ≡ raised e
          → connection u s info w ≡ (raised e, record w { tables = t })
      unfolding connection connect_board
      rejected_lem e h = ground (
        arith,
        get_board_by_uuid_found w u b k.one_board,
        invalidate_old_lem,
        open_session_lem,
        h,
      )

      -- Where the type of a field of the board does not accept the info, the connection of a known
      -- board raises, after the new session was stored: the session is the only valid one of the
      -- board, whose row is as it was, so the board is not put online.
      pub connection_rejected :
          (e : Exception)
          → with_info info (set_attr (from_db_object b) Column.status online) ≡ raised e
          → ((connection u s info w).0 ≡ raised e)
            × (filter (valid_of u) ((connection u s info w).1.tables Model.session) ≡ row ∷ [])
            × ((connection u s info w).1.tables Model.board ≡ w.tables Model.board)
      connection_rejected e h = rw (rejected_lem e h) (refl, one_valid, board_kept)

      module _ (o : Object) (accepts : Accepts info b o) where
        connect_board_lem : connect_board (from_db_object b) s info w ≡ (
          ok (wamp_success (Value.str "")),
          record w { tables = updated t Model.board b (obj_get_changes o) },
        )
        unfolding connect_board obj_get_changes
        connect_board_lem =
            let facts = accepted_lem info b o accepts in
            let saved =
              save_board_lem (record w { tables = t }) b o.row o.changed facts.0
                (rw facts.2 (rw k.same_uuid k.uuid)) facts.1
                (rw (facts.2, k.same_uuid, board_kept) k.one_board) in
            ground (arith, invalidate_old_lem, open_session_lem, accepts, saved)

        pub connection_lem : connection u s info w ≡ (
          ok (wamp_success (Value.str "")),
          record w { tables = updated t Model.board b (obj_get_changes o) },
        )
        unfolding connection
        connection_lem =
            ground (arith, get_board_by_uuid_found w u b k.one_board, connect_board_lem)

        -- A known board connects: the board's only valid session is the new one, with the number
        -- given as a text, and the board is online. The premise `created` says that the database takes
        -- the new session, and `accepts` that the types of the fields accept the info.
        pub connection_opens :
            ((connection u s info w).0 ≡ ok (wamp_success (Value.str "")))
            × (filter (valid_of u) ((connection u s info w).1.tables Model.session) ≡ row ∷ [])
            × (row Column.session_id ≡ str_or_none s)
            × (row Column.board_id ≡ b Column.id)
            × (filter (has Column.uuid u) ((connection u s info w).1.tables Model.board)
                ≡ assign (obj_get_changes o) b ∷ [])
            × (assign (obj_get_changes o) b Column.status ≡ online)
        unfolding filter
        connection_opens = rw connection_lem (
          refl,
          one_valid,
          rw row_lem refl,
          rw row_lem refl,
          filter-rewrite (has Column.uuid u) (has Column.id (b Column.id)) (obj_get_changes o)
                (λ r. (accepted_lem info b o accepts).4 r u) (t Model.board)
              ∙ rw (board_kept, k.one_board)
                  (ground
                    (arith, has_self Column.id b (IsNumber-IsScalar (b Column.id) k.board_key))),
          (accepted_lem info b o accepts).3,
        )
