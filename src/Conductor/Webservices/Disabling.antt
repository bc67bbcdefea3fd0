-- ===== src/Conductor/Webservices/Disabling.antt =====
-- iotronic/conductor/endpoints.py: disable_webservice.
use stack4things_openstack_i.Action.{Action, except_module, pure, ◌>>=◌, ◌>>◌}
use stack4things_openstack_i.Base.{String, [], if◌then◌else◌, ◌∷◌}
use stack4things_openstack_i.Conductor.Dns.{delete_record}
use stack4things_openstack_i.Conductor.Requests.{execute_on_board, new_req}
use stack4things_openstack_i.Conductor.Services.{release_port}
use stack4things_openstack_i.Conductor.Webservices.{agent_call, want_agent}
use stack4things_openstack_i.Db.Boards.{get_board_by_uuid}
use stack4things_openstack_i.Db.Engine.{Engine}
use stack4things_openstack_i.Db.Schema.{Column, Value}
use stack4things_openstack_i.Db.Services.{get_service_by_name}
use stack4things_openstack_i.Objects.{Object, is_online, load}
use stack4things_openstack_i.Objects.Kinds.{
  destroy_enabled_webservice_object, destroy_exposed_service_object, get_enabled_webservice,
  get_exposed_service,
}

module _ ⦃E : Engine⦄ where
  -- an online board is told that one service of the module ends, and the exposed row is given back
  unfoldable pub disable_part : Object → Value → String → Value → Action Object
  unfolding load get_service_by_name get_exposed_service is_online execute_on_board
  disable_part board board_uuid name mreq_uuid = do
    service ← load (get_service_by_name (Value.str name))
    exposed ← get_exposed_service board_uuid (service.row Column.uuid)
    (if is_online board
        then (do
          execute_on_board (board.row Column.uuid) "ServiceDisable" (service.row Column.uuid ∷ [])
              mreq_uuid
          pure tt)
        else pure tt)
    pure exposed

  unfoldable pub disable_on_board : Object → Value → Action (Unit {0})
  unfolding is_online execute_on_board
  disable_on_board board mreq_uuid =
      if is_online board
      then (do
        except_module (execute_on_board (board.row Column.uuid) "DisableWebService" [] mreq_uuid)
        pure tt)
      else pure tt

  unfoldable pub drop_proxy : Object → Object → Action (Unit {0})
  unfolding is_online agent_call
  drop_proxy board en =
      if is_online board
      then (do
        agent_call board "disable_webservice" (en.row Column.dns ∷ [])
        agent_call board "reload_proxy" [])
      else pure tt

  -- only the port of the second service goes back to SERVICE_PORT_LIST
  unfoldable pub disable_webservice : Value → Action (Unit {0})
  unfolding load get_board_by_uuid want_agent new_req get_enabled_webservice disable_part
      destroy_exposed_service_object release_port disable_on_board delete_record drop_proxy
      agent_call destroy_enabled_webservice_object
  disable_webservice board_uuid = do
    board ← load (get_board_by_uuid board_uuid)
    want_agent board
    mreq ← new_req board "disable_webservice" Value.null 3
    en ← get_enabled_webservice (board.row Column.uuid)
    exposed ← disable_part board board_uuid "webservice" (mreq.row Column.uuid)
    destroy_exposed_service_object exposed
    secure ← disable_part board board_uuid "webservice_ssl" (mreq.row Column.uuid)
    release_port (secure.row Column.public_port)
    destroy_exposed_service_object secure
    disable_on_board board (mreq.row Column.uuid)
    webservice ← get_enabled_webservice board_uuid
    delete_record (webservice.row Column.dns) (en.row Column.zone)
    drop_proxy board webservice
    agent_call board "remove_from_allowlist" (board.row Column.uuid ∷ en.row Column.http_port ∷ [])
    agent_call board "remove_from_allowlist" (board.row Column.uuid ∷ en.row Column.https_port ∷ [])
    destroy_enabled_webservice_object webservice
