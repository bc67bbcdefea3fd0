-- ===== src/Db/Sessions.antt =====
-- db/sqlalchemy/api.py: the WAMP sessions of the boards.
use stack4things_openstack_i.Base.{Bool, Option, none, some, List, [], ◌∷◌, any}
use stack4things_openstack_i.Db.Schema.{Value, Model, Column, Row, Tables, Values}
use stack4things_openstack_i.Db.Engine.{Engine}
use stack4things_openstack_i.Db.Query.{has, both, every, one, all, insert_row, do_update}
use stack4things_openstack_i.Db.Filters.{one_value}
use stack4things_openstack_i.Action.{Exception, Result, ok, raised, Action, or_not_found}

-- the result of a search that gives None where there is no row
unfoldable pub or_none : List Row → Result (Option Row)
or_none [] = ok none
or_none (r ∷ []) = ok (some r)
or_none (r ∷ s ∷ rest) = raised Exception.multiple_results_found

module _ ⦃E : Engine⦄ where
  unfoldable pub create_session : Values → Action Row
  unfolding insert_row
  create_session = insert_row Model.session

  unfoldable pub update_session : Value → Values → Action Row
  unfolding do_update
  update_session = do_update Model.session Exception.session_not_found

  unfoldable pub get_session_by_board_uuid : Value → Bool → Action Row
  unfolding one
  get_session_by_board_uuid board_uuid valid =
      or_not_found
        (one Model.session
          (both (has Column.board_uuid board_uuid) (has Column.valid (Value.bool valid))))
        (Exception.board_not_connected board_uuid)

  unfoldable pub get_session_by_id : Value → Action (Option Row)
  unfolding or_none
  get_session_by_id session_id w =
      (or_none (E.select w.tables Model.session (has Column.session_id session_id)), w)

  -- the valid sessions of the boards that an agent serves
  abbrev pub served_by : Tables → Value → Row → Bool
  served_by t agent r =
      any (both (has Column.id (r Column.board_id)) (has Column.agent agent))
        (E.select t Model.board every)

  unfoldable pub get_valid_wpsessions_list : Value → Action (List Row)
  unfolding all
  get_valid_wpsessions_list agent w =
      all Model.session (both (has Column.valid one_value) (served_by w.tables agent)) w
