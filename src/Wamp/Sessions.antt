-- ===== src/Wamp/Sessions.antt =====
-- iotronic/wamp/functions.py: boards connect, leave, and are checked against the sessions that the
-- WAMP router reports. The column of session numbers holds texts, and a number is compared with it by
-- its text. The order in which a Python set is walked is the order of the list here.
pub mod Leaving
pub mod Joining
pub mod Retrying
pub mod Updating
pub mod Single
pub mod Refining
pub mod Entering
pub mod Replacing
pub mod Keeping
pub mod Known
use stack4things_openstack_i.Action.{
  Action, Exception, Result, WampMessage, catch, lift, ok, pure, raise, raised, ◌>>=◌, ◌>>◌,
}
use stack4things_openstack_i.Base.{
  Bool, List, [], any, concat, false, filter, if◌then◌else◌, map, none, not, some, true, ◌∷◌,
}
use stack4things_openstack_i.Db.Boards.{get_board_by_uuid}
use stack4things_openstack_i.Conductor.Version.{parse_int}
use stack4things_openstack_i.Base.{codes, pos, ℕ}
use stack4things_openstack_i.Objects.{dict_or_none, str_or_none}
use stack4things_openstack_i.Db.Engine.{Engine}
use stack4things_openstack_i.Db.Filters.{Filters, filter_value}
use stack4things_openstack_i.Db.Schema.{Column, Fields, Row, Value, eq_value, truthy}
use stack4things_openstack_i.Db.Sessions.{get_session_by_board_uuid, get_valid_wpsessions_list}
use stack4things_openstack_i.Objects.{
  Object, create_session_object, from_db_object, get_session, load, new_object, save_board,
  save_session, set_attr, text_of,
}

-- `info`, as the board sends it
abbrev pub Info : Type 0
Info = Filters

-- try: m except Exception: pass
abbrev pub attempt : Action (Unit {0}) → Action (Unit {0})
attempt m = catch m (λ _. pure tt)

abbrev pub for_each : {A : Type 0} → List A → (A → Action (Unit {0})) → Action (Unit {0})
for_each [] f = pure tt
for_each (x ∷ xs) f = do f x; for_each xs f

unfoldable pub wamp_success : Value → WampMessage
wamp_success v = record { message = v; result = "SUCCESS"; req_id = none }

unfoldable pub wamp_error : Value → WampMessage
wamp_error v = record { message = v; result = "ERROR"; req_id = none }

-- the handler of `except Exception as exc`: only iotronic's exceptions have a `message`, here
-- BoardNotFound's, with the board filled in
unfoldable pub board_error : Value → Exception → Action WampMessage
board_error v (Exception.board_not_found u) = do
  s ← lift (text_of v)
  pure (wamp_error (Value.str (concat "Board " (concat s " could not be found."))))
board_error v e = raise Exception.attribute_error

module _ ⦃E : Engine⦄ where
  -- board.lr_version, board.connectivity from info, if it has them
  abbrev info_lr_version : Info → Object → Object
  info_lr_version info board = elim (filter_value "lr_version" info) [
    | none ↦ board
    | some v ↦
        if eq_value (board.row Column.lr_version) v
        then board
        else set_attr board Column.lr_version (str_or_none v)
  ]

  abbrev set_connectivity : Object → Result Value → Result Object
  set_connectivity board (ok d) = ok (set_attr board Column.connectivity d)
  set_connectivity board (raised e) = raised e

  abbrev info_connectivity : Info → Object → Result Object
  info_connectivity info board = elim (filter_value "connectivity" info) [
    | none ↦ ok board
    | some v ↦ set_connectivity board (dict_or_none v)
  ]

  abbrev info_mac_addr : Info → Result Object → Result Object
  info_mac_addr info (raised e) = raised e
  info_mac_addr info (ok board) = elim (filter_value "mac_addr" info) [
    | none ↦ ok board
    | some v ↦ set_connectivity board (ok (Value.dict (Fields.field "mac_addr" v Fields.end)))
  ]

  unfoldable pub with_info : Info → Object → Result Object
  unfolding str_or_none dict_or_none
  with_info info board = info_mac_addr info (info_connectivity info (info_lr_version info board))

abbrev as_int : Result ℕ → Result Value
as_int (ok n) = ok (Value.int (pos n))
as_int (raised e) = raised e

abbrev and_number : Result Value → Result (List Value) → Result (List Value)
and_number (ok v) (ok vs) = ok (v ∷ vs)
and_number (ok v) (raised e) = raised e
and_number (raised e) rest = raised e

member : Value → List Value → Bool
member v xs = any (eq_value v) xs

-- set(xs)
dedup : List Value → List Value
unfolding member
dedup [] = []
dedup (x ∷ xs) = let rest = dedup xs in if member x xs then rest else x ∷ rest

-- a.difference(b)
unfoldable pub difference : List Value → List Value → List Value
unfolding member dedup
difference xs ys = filter (λ x. not (member x ys)) (dedup xs)

module _ ⦃E : Engine⦄ where
  -- the valid session of a board, if there is one, is marked as not valid
  unfoldable pub invalidate_old : Object → Action (Unit {0})
  unfolding load get_session_by_board_uuid save_session
  invalidate_old board = attempt do
    old_ses ← load (get_session_by_board_uuid (board.row Column.uuid) true)
    save_session (set_attr old_ses Column.valid (Value.bool false))
    pure tt

  unfoldable pub open_session : Object → Value → Action Object
  unfolding new_object create_session_object str_or_none
  open_session board session = create_session_object (
      new_object (
        (Column.board_id, board.row Column.id)
        ∷ (Column.board_uuid, board.row Column.uuid)
        ∷ (Column.session_id, str_or_none session)
        ∷ []))

  -- the part of `connection` that follows the lookup of the board
  unfoldable pub connect_board : Object → Value → Info → Action WampMessage
  unfolding invalidate_old open_session with_info save_board wamp_success
  connect_board board session info = do
    invalidate_old board
    open_session board session
    updated ← lift (with_info info (set_attr board Column.status (Value.str "online")))
    save_board updated
    pure (wamp_success (Value.str ""))

  abbrev pub found_or_error :
      Value → (Object → Action WampMessage) → Result Row → Action WampMessage
  found_or_error v f (ok r) = f (from_db_object r)
  found_or_error v f (raised e) = board_error v e

  unfoldable pub connection : Value → Value → Info → Action WampMessage
  unfolding get_board_by_uuid connect_board board_error
  connection uuid session info w =
      let (r, v) = get_board_by_uuid uuid w in
      found_or_error uuid (λ board. connect_board board session info) r v

  -- old_session.valid = False and the board OFFLINE, for a session that is still valid
  unfoldable pub close_session : Object → Action (Unit {0})
  unfolding save_session load get_board_by_uuid save_board
  close_session old_session =
      if truthy (old_session.row Column.valid)
      then (do
        save_session (set_attr old_session Column.valid (Value.bool false))
        board ← load (get_board_by_uuid (old_session.row Column.board_uuid))
        save_board (set_attr board Column.status (Value.str "offline"))
        pure tt)
      else pure tt

  unfoldable pub board_on_leave : Value → Action (Unit {0})
  unfolding get_session close_session
  board_on_leave session_id =
      attempt (do old_session ← get_session session_id; close_session old_session)

  unfoldable pub close_elem : Value → Action (Unit {0})
  unfolding get_session close_session
  close_elem elem = do old_session ← get_session elem; close_session old_session

  -- int(elem.session_id)
  abbrev int_of : Value → Result Value
  int_of (Value.str s) = as_int (parse_int (codes s))
  int_of (Value.int z) = ok (Value.int z)
  int_of v = raised Exception.type_error

  -- [int(elem.session_id) for elem in list_from_db]
  unfoldable pub numbers_of : List Row → Result (List Value)
  unfolding parse_int
  numbers_of [] = ok []
  numbers_of (r ∷ rows) = and_number (int_of (r Column.session_id)) (numbers_of rows)

  -- nothing is left of either set without the other: the sets are equal, and the method returns;
  -- otherwise the sessions that only the database has are closed
  unfoldable pub update_sessions : List Value → Value → Action (Unit {0})
  unfolding get_valid_wpsessions_list numbers_of difference close_elem
  update_sessions session_list agent = do
    list_from_db ← get_valid_wpsessions_list agent
    list_db ← lift (numbers_of list_from_db)
    for_each (difference list_db session_list) close_elem
