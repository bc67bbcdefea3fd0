-- ===== src/Db/Services.antt =====
-- db/sqlalchemy/api.py: services, their exposure on boards, and the ports of boards.
use stack4things_openstack_i.Base.{Bool, Option, none, some, List, if◌then◌else◌, ◌==◌}
use stack4things_openstack_i.Db.Schema.{Value, Model, Column, Row, Values, truthy}
use stack4things_openstack_i.Db.Engine.{Engine, Page}
use stack4things_openstack_i.Db.Query.{
  has, both, every, one, all, insert_row, delete_rows, add_identity_filter, paginate_query,
  create_row, do_update, update_row, destroy_row,
}
use stack4things_openstack_i.Db.Filters.{Filters, add_ports_filters, add_services_filters}
use stack4things_openstack_i.Action.{
  Exception, Action, ◌>>=◌, ◌>>◌, pure, raise, lift, or_not_found, transaction,
}

module _ ⦃E : Engine⦄ where
  unfoldable pub get_service_by_id : Value → Action Row
  unfolding one
  get_service_by_id service_id =
      or_not_found (one Model.service (has Column.id service_id))
        (Exception.service_not_found service_id)

  unfoldable pub get_service_by_uuid : Value → Action Row
  unfolding one
  get_service_by_uuid service_uuid =
      or_not_found (one Model.service (has Column.uuid service_uuid))
        (Exception.service_not_found service_uuid)

  unfoldable pub get_service_by_name : Value → Action Row
  unfolding one
  get_service_by_name service_name =
      or_not_found (one Model.service (has Column.name service_name))
        (Exception.service_not_found service_name)

  unfoldable pub destroy_service : Value → Action (Unit {0})
  unfolding destroy_row
  destroy_service = destroy_row Model.service Exception.service_not_found

  unfoldable pub do_update_service : Value → Values → Action Row
  unfolding do_update
  do_update_service = do_update Model.service Exception.service_not_found

  unfoldable pub update_service : Value → Values → Action Row
  unfolding update_row
  update_service =
      update_row Model.service Exception.service_not_found Exception.service_already_exists

  unfoldable pub create_service : Values → Action Row
  unfolding create_row
  create_service = create_row Model.service Exception.service_already_exists

  unfoldable pub get_service_list : Filters → Page → Action (List Row)
  unfolding paginate_query add_services_filters
  get_service_list fs page w =
      paginate_query Model.service page (add_services_filters w.tables fs every) w

  -- exposed services; query.all() raises no NoResultFound
  unfoldable pub get_exposed_services_by_board_uuid : Value → Action (List Row)
  unfolding all
  get_exposed_services_by_board_uuid board_uuid =
      all Model.exposed_service (has Column.board_uuid board_uuid)

  unfoldable pub create_exposed_service : Values → Action Row
  unfolding create_row
  create_exposed_service = create_row Model.exposed_service Exception.service_already_exposed

  unfoldable pub update_exposed_service : Value → Values → Action Row
  unfolding update_row
  update_exposed_service =
      update_row Model.exposed_service Exception.service_not_found Exception.service_already_exists

  unfoldable pub get_exposed_service_by_uuids : Value → Value → Action Row
  unfolding one
  get_exposed_service_by_uuids board_uuid service_uuid =
      or_not_found
        (one Model.exposed_service
          (both (has Column.board_uuid board_uuid) (has Column.service_uuid service_uuid)))
        (Exception.exposed_service_not_found service_uuid)

  unfoldable pub destroy_exposed_service : Value → Action (Unit {0})
  unfolding delete_rows
  destroy_exposed_service exposed_service_id = transaction do
    p ← lift (add_identity_filter exposed_service_id)
    or_not_found (delete_rows Model.exposed_service p)
        (Exception.exposed_service_not_found Value.null)
    pure tt

  -- the board is optional
  unfoldable pub get_exposed_service_list : Value → Action (List Row)
  unfolding all
  get_exposed_service_list board_uuid =
      if truthy board_uuid
      then all Model.exposed_service (has Column.board_uuid board_uuid)
      else all Model.exposed_service every

  -- ports
  unfoldable pub get_port_by_id : Value → Action Row
  unfolding one
  get_port_by_id port_id =
      or_not_found (one Model.port (has Column.id port_id)) (Exception.port_not_found port_id)

  unfoldable pub get_port_by_uuid : Value → Action Row
  unfolding one
  get_port_by_uuid port_uuid =
      or_not_found (one Model.port (has Column.uuid port_uuid)) (Exception.port_not_found port_uuid)

  unfoldable pub get_port_by_name : Value → Action Row
  unfolding one
  get_port_by_name port_name =
      or_not_found (one Model.port (has Column.name port_name)) (Exception.port_not_found port_name)

  unfoldable pub get_ports_by_board_uuid : Value → Action (List Row)
  unfolding all
  get_ports_by_board_uuid board_uuid = all Model.port (has Column.board_uuid board_uuid)

  -- _paginate_query starts a query of its own where it is given None
  abbrev or_every : Option (Row → Bool) → Row → Bool
  or_every none = every
  or_every (some p) = p

  unfoldable pub get_port_list : Filters → Page → Action (List Row)
  unfolding paginate_query add_ports_filters
  get_port_list fs page = paginate_query Model.port page (or_every (add_ports_filters fs every))

  unfoldable pub create_port : Values → Action Row
  unfolding insert_row
  create_port = insert_row Model.port

  unfoldable pub destroy_port : Value → Action (Unit {0})
  unfolding delete_rows
  destroy_port uuid = transaction do
    p ← lift (add_identity_filter uuid)
    count ← delete_rows Model.port p
    if count == 0 then raise (Exception.port_not_found uuid) else pure tt
