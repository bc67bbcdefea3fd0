-- ===== src/Db/Boards.antt =====
-- db/sqlalchemy/api.py: boards, and the locations that go with them.
use stack4things_openstack_i.Base.{Bool, List, [], ◌∷◌, ◌++◌, if◌then◌else◌, ◌==◌, any}
use stack4things_openstack_i.Db.Schema.{
  Value, Model, Column, Row, Tables, Values, assigns, value_of,
}
use stack4things_openstack_i.Db.Engine.{Engine, Page}
use stack4things_openstack_i.Db.Query.{
  has, both, every, one, insert_row, delete_rows, is_uuid_like, add_identity_filter, paginate_query,
  ensure_uuid, do_update, update_row, contains_column,
}
use stack4things_openstack_i.Db.Filters.{Filters, add_boards_filters}
use stack4things_openstack_i.Action.{
  Exception, Action, ◌>>=◌, ◌>>◌, pure, raise, lift, catch, or_not_found, transaction,
}

module _ ⦃E : Engine⦄ where
  -- the argument is an id, or the uuid of the location's board
  unfoldable pub add_location_filter_by_board : Tables → Value → Row → Bool
  add_location_filter_by_board t (Value.int z) = has Column.board_id (Value.int z)
  add_location_filter_by_board t v = λ r.
      any (both (has Column.id (r Column.board_id)) (has Column.uuid v))
        (E.select t Model.board every)

  unfoldable pub get_board_list : Filters → Page → Action (List Row)
  unfolding paginate_query add_boards_filters
  get_board_list fs page = paginate_query Model.board page (add_boards_filters fs every)

  -- except DBDuplicateEntry: the board code is told apart from the other constraints
  abbrev pub board_duplicate : Values → Exception → Action Row
  board_duplicate vs (Exception.db_duplicate_entry cs) =
      if contains_column Column.code cs
      then raise (Exception.duplicate_code (value_of Column.code vs))
      else raise (Exception.board_already_exists (value_of Column.uuid vs))
  board_duplicate vs other = raise other

  -- if 'status' not in values: values['status'] = states.REGISTERED
  abbrev ensure_status : Values → Values
  ensure_status vs =
      if assigns Column.status vs then vs else vs ++ (Column.status, Value.str "registered") ∷ []

  unfoldable pub create_board : Values → Action Row
  unfolding ensure_uuid insert_row
  create_board values = do
    vs ← ensure_uuid values
    let full = ensure_status vs
    catch (insert_row Model.board full) (board_duplicate full)

  unfoldable pub get_board_by_id : Value → Action Row
  unfolding one
  get_board_by_id board_id =
      or_not_found (one Model.board (has Column.id board_id)) (Exception.board_not_found board_id)

  unfoldable pub get_board_by_uuid : Value → Action Row
  unfolding one
  get_board_by_uuid board_uuid =
      or_not_found (one Model.board (has Column.uuid board_uuid))
        (Exception.board_not_found board_uuid)

  unfoldable pub get_board_by_name : Value → Action Row
  unfolding one
  get_board_by_name board_name =
      or_not_found (one Model.board (has Column.name board_name))
        (Exception.board_not_found board_name)

  unfoldable pub get_board_by_code : Value → Action Row
  unfolding one
  get_board_by_code board_code =
      or_not_found (one Model.board (has Column.code board_code))
        (Exception.board_not_found board_code)

  unfoldable pub get_board_id_by_uuid : Value → Action Value
  unfolding get_board_by_uuid
  get_board_id_by_uuid board_uuid = do board ← get_board_by_uuid board_uuid; pure (board Column.id)

  -- inside `with session.begin()`: the locations of the board, then the board
  unfoldable pub destroy_board_steps : Value → Action (Unit {0})
  unfolding one delete_rows add_identity_filter add_location_filter_by_board
  destroy_board_steps board_id = do
    p ← lift (add_identity_filter board_id)
    board_ref ← or_not_found (one Model.board p) (Exception.board_not_found board_id)
    let key = if is_uuid_like board_id then board_ref Column.id else board_id
    (λ w. delete_rows Model.location (add_location_filter_by_board w.tables key) w)
    delete_rows Model.board p
    pure tt

  unfoldable pub destroy_board : Value → Action (Unit {0})
  unfolding destroy_board_steps
  destroy_board board_id = transaction (destroy_board_steps board_id)

  unfoldable pub do_update_board : Value → Values → Action Row
  unfolding do_update
  do_update_board = do_update Model.board Exception.board_not_found

  unfoldable pub update_board : Value → Values → Action Row
  unfolding update_row
  update_board = update_row Model.board Exception.board_not_found Exception.board_already_exists

  -- locations
  unfoldable pub create_location : Values → Action Row
  unfolding insert_row
  create_location = insert_row Model.location

  -- one() runs inside the transaction, and its NoResultFound is translated outside
  unfoldable pub update_location : Value → Values → Action Row
  unfolding do_update
  update_location = do_update Model.location Exception.location_not_found

  unfoldable pub destroy_location : Value → Action (Unit {0})
  unfolding delete_rows
  destroy_location location_id = transaction do
    p ← lift (add_identity_filter location_id)
    count ← delete_rows Model.location p
    if count == 0 then raise (Exception.location_not_found location_id) else pure tt

  unfoldable pub get_locations_by_board_id : Value → Page → Action (List Row)
  unfolding paginate_query
  get_locations_by_board_id board_id page =
      paginate_query Model.location page (has Column.board_id board_id)
