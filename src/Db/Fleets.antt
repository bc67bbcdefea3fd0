-- ===== src/Db/Fleets.antt =====
-- db/sqlalchemy/api.py: fleets, webservices and the boards where these are enabled.
use stack4things_openstack_i.Base.{Option, List}
use stack4things_openstack_i.Db.Schema.{Value, Model, Column, Row, Values}
use stack4things_openstack_i.Db.Engine.{Engine, Page}
use stack4things_openstack_i.Db.Query.{
  has, every, one, paginate_query, create_row, do_update, update_row, destroy_row,
}
use stack4things_openstack_i.Db.Filters.{
  Filters, add_fleets_filters, add_enabled_webservices_filters, add_webservices_filters,
}
use stack4things_openstack_i.Action.{Exception, Action, or_not_found}
use stack4things_openstack_i.Db.Sessions.{or_none}

module _ ⦃E : Engine⦄ where
  unfoldable pub get_fleet_by_id : Value → Action Row
  unfolding one
  get_fleet_by_id fleet_id =
      or_not_found (one Model.fleet (has Column.id fleet_id)) (Exception.fleet_not_found fleet_id)

  unfoldable pub get_fleet_by_uuid : Value → Action Row
  unfolding one
  get_fleet_by_uuid fleet_uuid =
      or_not_found (one Model.fleet (has Column.uuid fleet_uuid))
        (Exception.fleet_not_found fleet_uuid)

  unfoldable pub get_fleet_by_name : Value → Action Row
  unfolding one
  get_fleet_by_name fleet_name =
      or_not_found (one Model.fleet (has Column.name fleet_name))
        (Exception.fleet_not_found fleet_name)

  unfoldable pub destroy_fleet : Value → Action (Unit {0})
  unfolding destroy_row
  destroy_fleet = destroy_row Model.fleet Exception.fleet_not_found

  unfoldable pub do_update_fleet : Value → Values → Action Row
  unfolding do_update
  do_update_fleet = do_update Model.fleet Exception.fleet_not_found

  unfoldable pub update_fleet : Value → Values → Action Row
  unfolding update_row
  update_fleet = update_row Model.fleet Exception.fleet_not_found Exception.fleet_already_exists

  unfoldable pub create_fleet : Values → Action Row
  unfolding create_row
  create_fleet = create_row Model.fleet Exception.fleet_already_exists

  unfoldable pub get_fleet_list : Filters → Page → Action (List Row)
  unfolding paginate_query add_fleets_filters
  get_fleet_list fs page = paginate_query Model.fleet page (add_fleets_filters fs every)

  -- webservices
  unfoldable pub get_webservice_by_id : Value → Action Row
  unfolding one
  get_webservice_by_id webservice_id =
      or_not_found (one Model.webservice (has Column.id webservice_id))
        (Exception.webservice_not_found webservice_id)

  unfoldable pub get_webservice_by_uuid : Value → Action Row
  unfolding one
  get_webservice_by_uuid webservice_uuid =
      or_not_found (one Model.webservice (has Column.uuid webservice_uuid))
        (Exception.webservice_not_found webservice_uuid)

  unfoldable pub get_webservice_by_name : Value → Action Row
  unfolding one
  get_webservice_by_name webservice_name =
      or_not_found (one Model.webservice (has Column.name webservice_name))
        (Exception.webservice_not_found webservice_name)

  unfoldable pub destroy_webservice : Value → Action (Unit {0})
  unfolding destroy_row
  destroy_webservice = destroy_row Model.webservice Exception.webservice_not_found

  unfoldable pub do_update_webservice : Value → Values → Action Row
  unfolding do_update
  do_update_webservice = do_update Model.webservice Exception.webservice_not_found

  unfoldable pub update_webservice : Value → Values → Action Row
  unfolding update_row
  update_webservice =
      update_row Model.webservice Exception.webservice_not_found Exception.webservice_already_exists

  unfoldable pub create_webservice : Values → Action Row
  unfolding create_row
  create_webservice = create_row Model.webservice Exception.webservice_already_exists

  unfoldable pub get_webservice_list : Filters → Page → Action (List Row)
  unfolding paginate_query add_webservices_filters
  get_webservice_list fs page w =
      paginate_query Model.webservice page (add_webservices_filters w.tables fs every) w

  -- boards with webservices enabled
  unfoldable pub get_enabled_webservice_by_id : Value → Action Row
  unfolding one
  get_enabled_webservice_by_id enabled_webservice_id =
      or_not_found (one Model.enabled_webservice (has Column.id enabled_webservice_id))
        (Exception.enabled_webservice_not_found enabled_webservice_id)

  unfoldable pub get_enabled_webservice_by_board_uuid : Value → Action Row
  unfolding one
  get_enabled_webservice_by_board_uuid board_uuid =
      or_not_found (one Model.enabled_webservice (has Column.board_uuid board_uuid))
        (Exception.enabled_webservice_not_found board_uuid)

  -- False where no board has the name
  unfoldable pub get_enabled_webservice_by_name : Value → Action (Option Row)
  get_enabled_webservice_by_name name w =
      (or_none (E.select w.tables Model.enabled_webservice (has Column.dns name)), w)

  unfoldable pub destroy_enabled_webservice : Value → Action (Unit {0})
  unfolding destroy_row
  destroy_enabled_webservice =
      destroy_row Model.enabled_webservice Exception.enabled_webservice_not_found

  unfoldable pub create_enabled_webservice : Values → Action Row
  unfolding create_row
  create_enabled_webservice =
      create_row Model.enabled_webservice Exception.enabled_webservice_already_exists

  unfoldable pub get_enabled_webservice_list : Filters → Page → Action (List Row)
  unfolding paginate_query add_enabled_webservices_filters
  get_enabled_webservice_list fs page w =
      paginate_query Model.enabled_webservice page
        (add_enabled_webservices_filters w.tables fs every) w
