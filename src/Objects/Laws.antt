-- ===== src/Objects/Laws.antt =====
-- What loading and saving objects does to the tables.
use stack4things_openstack_i.Action.{Exception, World, ok, raised}
use stack4things_openstack_i.Base.{
  Bool, List, [], arith, false, filter, map, none, refl, true, ◌∙◌, ◌∷◌, ◌≡◌,
}
use stack4things_openstack_i.Db.Boards.{get_board_by_uuid}
use stack4things_openstack_i.Db.Engine.{Engine, rewrite}
use stack4things_openstack_i.Db.Laws.{
  IsNumber, IsNumber-IsScalar, IsScalar, do_update_lem, filter-rewrite, has_self, one_found,
  one_missing,
}
use stack4things_openstack_i.Db.Query.{add_identity_filter, has}
use stack4things_openstack_i.Db.Schema.{
  Column, Model, Row, Tables, Value, Values, assign, assigns, is_null, keyless, set_rows,
}
use stack4things_openstack_i.Objects.{
  changes_of, from_db_object, save_board, save_request, save_result, save_session,
}

-- The rows of a table, after those with the primary key of a row are rewritten.
abbrev pub updated : Tables → Model → Row → Values → Tables
updated t m r vs = set_rows t m (map (rewrite (has Column.id (r Column.id)) vs) (t m))

-- A text that the engine takes for a uuid and not for a number.
abbrev pub IsUuid : ⦃E : Engine⦄ → Value → Type 0
IsUuid ⦃E⦄ (Value.str s) = (E.int_like s ≡ none) × (E.is_uuid_like s ≡ true)
IsUuid v = ⊥

module _ ⦃E : Engine⦄ where
  pub identity-IsUuid : (v : Value) → IsUuid v → add_identity_filter v ≡ ok (has Column.uuid v)
  unfolding add_identity_filter
  identity-IsUuid (Value.str s) h = ground arith
  identity-IsUuid Value.null h = absurd h
  identity-IsUuid (Value.bool b) h = absurd h
  identity-IsUuid (Value.int z) h = absurd h
  identity-IsUuid (Value.dict f) h = absurd h

  pub identity-IsNumber : (v : Value) → IsNumber v → add_identity_filter v ≡ ok (has Column.id v)
  unfolding add_identity_filter
  identity-IsNumber (Value.int z) h = refl
  identity-IsNumber (Value.str s) h = absurd h
  identity-IsNumber Value.null h = absurd h
  identity-IsNumber (Value.bool b) h = absurd h
  identity-IsNumber (Value.dict f) h = absurd h

  -- `get_board_by_uuid` finds the one board with the uuid, and otherwise raises.
  module _ (w : World) (u : Value) where
    pub get_board_by_uuid_found :
        (b : Row)
        → filter (has Column.uuid u) (w.tables Model.board) ≡ b ∷ []
        → get_board_by_uuid u w ≡ (ok b, w)
    unfolding get_board_by_uuid
    get_board_by_uuid_found b h = ground (arith, one_found w Model.board (has Column.uuid u) b h)

    pub get_board_by_uuid_missing :
        filter (has Column.uuid u) (w.tables Model.board) ≡ []
        → get_board_by_uuid u w ≡ (raised (Exception.board_not_found u), w)
    unfolding get_board_by_uuid
    get_board_by_uuid_missing h = ground (arith, one_missing w Model.board (has Column.uuid u) h)

  -- Saving an object with its primary key or uuid still in place writes its changed columns to the
  -- rows of that key.
  module _ (w : World) (r q : Row) (cs : List Column)
      (keys : keyless (changes_of cs q) ≡ true) where
    pub save_session_lem :
        IsNumber (q Column.id)
        → filter (has Column.id (q Column.id)) (w.tables Model.session) ≡ r ∷ []
        → save_session (record { row = q; changed = cs }) w ≡ (
          ok (from_db_object q),
          record w { tables = updated w.tables Model.session r (changes_of cs q) },
        )
    unfolding save_session
    save_session_lem n only = ground (
      arith,
      do_update_lem w Model.session Exception.session_not_found (q Column.id) (changes_of cs q) r
          (has Column.id (q Column.id)) (identity-IsNumber (q Column.id) n) only keys,
    )

    pub save_result_lem :
        IsNumber (q Column.id)
        → filter (has Column.id (q Column.id)) (w.tables Model.result) ≡ r ∷ []
        → save_result (record { row = q; changed = cs }) w ≡ (
          ok (from_db_object q),
          record w { tables = updated w.tables Model.result r (changes_of cs q) },
        )
    unfolding save_result
    save_result_lem n only = ground (
      arith,
      do_update_lem w Model.result (λ _. Exception.result_not_found) (q Column.id) (changes_of cs q)
          r (has Column.id (q Column.id)) (identity-IsNumber (q Column.id) n) only keys,
    )

    pub save_board_lem :
        IsUuid (q Column.uuid)
        → assigns Column.uuid (changes_of cs q) ≡ false
        → filter (has Column.uuid (q Column.uuid)) (w.tables Model.board) ≡ r ∷ []
        → save_board (record { row = q; changed = cs }) w ≡ (
          ok (from_db_object q),
          record w { tables = updated w.tables Model.board r (changes_of cs q) },
        )
    unfolding save_board
    save_board_lem n new only = ground (
      arith,
      do_update_lem w Model.board Exception.board_not_found (q Column.uuid) (changes_of cs q) r
          (has Column.uuid (q Column.uuid)) (identity-IsUuid (q Column.uuid) n) only keys,
    )

    pub save_request_lem :
        IsUuid (q Column.uuid)
        → assigns Column.uuid (changes_of cs q) ≡ false
        → filter (has Column.uuid (q Column.uuid)) (w.tables Model.request) ≡ r ∷ []
        → save_request (record { row = q; changed = cs }) w ≡ (
          ok (from_db_object q),
          record w { tables = updated w.tables Model.request r (changes_of cs q) },
        )
    unfolding save_request
    save_request_lem n new only = ground (
      arith,
      do_update_lem w Model.request Exception.request_not_found (q Column.uuid) (changes_of cs q) r
          (has Column.uuid (q Column.uuid)) (identity-IsUuid (q Column.uuid) n) only keys,
    )

  pub IsUuid-IsScalar : (v : Value) → IsUuid v → IsScalar v
  IsUuid-IsScalar (Value.str s) h = tt
  IsUuid-IsScalar Value.null h = absurd h
  IsUuid-IsScalar (Value.bool b) h = absurd h
  IsUuid-IsScalar (Value.int z) h = absurd h
  IsUuid-IsScalar (Value.dict f) h = absurd h

  pub IsUuid-not_null : (v : Value) → IsUuid v → is_null v ≡ false
  unfolding is_null
  IsUuid-not_null (Value.str s) h = refl
  IsUuid-not_null Value.null h = absurd h
  IsUuid-not_null (Value.bool b) h = absurd h
  IsUuid-not_null (Value.int z) h = absurd h
  IsUuid-not_null (Value.dict f) h = absurd h

-- A query that finds one row, and does not read what is written, finds that row rewritten.
pub updated_found :
    (t : Tables) (m : Model) (r : Row) (vs : Values) (p : Row → Bool)
    → ((q : Row) → p (assign vs q) ≡ p q)
    → IsNumber (r Column.id)
    → filter p (t m) ≡ r ∷ []
    → filter p (map (rewrite (has Column.id (r Column.id)) vs) (t m)) ≡ assign vs r ∷ []
updated_found t m r vs p unread n h =
    filter-rewrite p (has Column.id (r Column.id)) vs unread (t m)
    ∙ rw h (ground (arith, has_self Column.id r (IsNumber-IsScalar (r Column.id) n)))

-- and a row with another primary key stays as it is
pub updated_other :
    (t : Tables) (m : Model) (r q : Row) (vs : Values) (p : Row → Bool)
    → ((s : Row) → p (assign vs s) ≡ p s)
    → has Column.id (r Column.id) q ≡ false
    → filter p (t m) ≡ q ∷ []
    → filter p (map (rewrite (has Column.id (r Column.id)) vs) (t m)) ≡ q ∷ []
updated_other t m r q vs p unread n h =
    filter-rewrite p (has Column.id (r Column.id)) vs unread (t m) ∙ rw h (ground (arith, n))
