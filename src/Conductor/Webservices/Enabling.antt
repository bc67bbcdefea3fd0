-- ===== src/Conductor/Webservices/Enabling.antt =====
-- iotronic/conductor/endpoints.py: enable_webservice, which opens two ports on the board's agent,
-- exposes two services on them, and sets up the proxy.
pub mod Keeping
use stack4things_openstack_i.Action.{
  Action, Exception, except_module, lift, pure, raise, ◌>>=◌, ◌>>◌,
}
use stack4things_openstack_i.Base.{ℕ, Option, String, [], if◌then◌else◌, none, some, ◌∷◌}
use stack4things_openstack_i.Conductor.Dns.{create_record_dns, dotted}
use stack4things_openstack_i.Conductor.Plugins.{found_or_none}
use stack4things_openstack_i.Conductor.Ports.{PortConfig, webservice_ports}
use stack4things_openstack_i.Conductor.Requests.{
  completed, execute_on_board, manage_result, new_req, new_res,
}
use stack4things_openstack_i.Conductor.Services.{exposed_values, port_value}
use stack4things_openstack_i.Conductor.Webservices.{
  Response, agent_call, domain_of, entity, returned, want_agent, want_online, warn,
}
use stack4things_openstack_i.Db.Boards.{get_board_by_uuid}
use stack4things_openstack_i.Db.Engine.{Engine}
use stack4things_openstack_i.Db.Schema.{Column, Value, Values}
use stack4things_openstack_i.Db.Services.{get_service_by_name}
use stack4things_openstack_i.Objects.{
  Object, check_dns_available, is_webservice_enabled, load, new_object, save_request, save_result,
  set_attr,
}
use stack4things_openstack_i.Objects.Kinds.{
  create_enabled_webservice_object, create_exposed_service_object, get_enabled_webservice,
}

-- what a new row of enabled web services holds
unfoldable enabled_values : Value → Value → Value → String → String → Values
enabled_values board_uuid http https dns zone =
    (Column.board_uuid, board_uuid)
    ∷ (Column.http_port, http)
    ∷ (Column.https_port, https)
    ∷ (Column.dns, Value.str dns)
    ∷ (Column.zone, Value.str zone)
    ∷ []

module _ ⦃E : Engine⦄ (conf : PortConfig) where
  -- one service of the module on one port, as a part of the main request
  unfoldable pub enable_part : Object → Value → Value → Value → Value → Action (Unit {0})
  unfolding execute_on_board manage_result create_exposed_service_object new_object exposed_values
  enable_part board board_uuid service_uuid port mreq_uuid = do
    res ←
        execute_on_board (board.row Column.uuid) "ServiceEnable" (service_uuid ∷ port ∷ [])
          mreq_uuid
    manage_result res (board.row Column.uuid)
    create_exposed_service_object (new_object (exposed_values board_uuid service_uuid port))
    pure tt

  -- the proxy of the agent, then the board, then the redirect
  unfoldable pub set_up_proxy :
      Object → String → String → Value → Value → Value → Value → Action (Unit {0})
  unfolding agent_call execute_on_board
  set_up_proxy board dns zone email http https mreq_uuid = do
    agent_call board "enable_webservice" (Value.str dns ∷ https ∷ http ∷ Value.str zone ∷ [])
    agent_call board "reload_proxy" []
    except_module (
        execute_on_board (board.row Column.uuid) "EnableWebService"
          (Value.str (dotted dns zone) ∷ email ∷ []) mreq_uuid)
    agent_call board "add_redirect" (Value.str dns ∷ Value.str zone ∷ [])
    agent_call board "reload_proxy" []

  -- the part that follows the choice of the ports
  unfoldable pub open_webservice :
      Object → Value → Object → String → String → Value → Value → Value → Value → Action Response
  unfolding load get_service_by_name agent_call enable_part set_up_proxy
  open_webservice board board_uuid en dns zone email http https mreq_uuid = do
    service ← load (get_service_by_name (Value.str "webservice"))
    agent_call board "addin_allowlist" (board.row Column.uuid ∷ http ∷ [])
    agent_call board "addin_allowlist" (board.row Column.uuid ∷ https ∷ [])
    enable_part board board_uuid (service.row Column.uuid) http mreq_uuid
    secure ← load (get_service_by_name (Value.str "webservice_ssl"))
    enable_part board board_uuid (secure.row Column.uuid) https mreq_uuid
    set_up_proxy board dns zone email http https mreq_uuid
    pure (entity en)

  -- two ports from the list, and a new row
  unfoldable pub enable_on :
      Object → Value → String → String → Value → Value → Option (ℕ × ℕ) → Action Response
  unfolding create_enabled_webservice_object new_object enabled_values open_webservice
  enable_on board board_uuid dns zone email mreq_uuid none =
      pure (returned Exception.not_enough_port_for_service)
  enable_on board board_uuid dns zone email mreq_uuid (some (https, http)) = do
    en ← create_enabled_webservice_object (
        new_object
          (enabled_values (board.row Column.uuid) (port_value http) (port_value https) dns zone))
    open_webservice board board_uuid en dns zone email (port_value http) (port_value https)
        mreq_uuid

  -- the ports of the row that is there, or two from the list
  unfoldable pub enable_with :
      Object → Value → String → String → Value → Value → Option Object → Action Response
  unfolding webservice_ports open_webservice enable_on
  enable_with board board_uuid dns zone email mreq_uuid (some en) =
      open_webservice board board_uuid en dns zone email (en.row Column.http_port)
        (en.row Column.https_port) mreq_uuid
  enable_with board board_uuid dns zone email mreq_uuid none = do
    ports ← webservice_ports conf
    enable_on board board_uuid dns zone email mreq_uuid ports

  -- the board has no web service module yet
  unfoldable pub enable_new : Object → Value → String → String → Value → Action Response
  unfolding new_req create_record_dns get_enabled_webservice enable_with
  enable_new board board_uuid dns zone email = do
    mreq ← new_req board "enable_webservice" Value.null 3
    except_module (create_record_dns board dns zone)
    en ← found_or_none (get_enabled_webservice (board.row Column.uuid))
    enable_with board board_uuid dns zone email (mreq.row Column.uuid) en

  -- the module is enabled already: a warning is noted as a result of a request of its own
  unfoldable pub enable_again : Object → Action Response
  unfolding new_req new_res get_enabled_webservice domain_of save_result save_request
  enable_again board = do
    mreq ← new_req board "enable_webservice" Value.null 0
    res ← new_res board (mreq.row Column.uuid)
    en ← get_enabled_webservice (board.row Column.uuid)
    domain ← lift (domain_of en)
    save_result (
        set_attr (set_attr res Column.result (Value.str "WARNING")) Column.message
          (Value.str "Webservice and dns already enabled for this device!"))
    save_request (set_attr mreq Column.status completed)
    raise (Exception.enabled_webservice_already_exists (Value.str domain))

  unfoldable pub enable_webservice : String → String → Value → Value → Action Response
  unfolding load get_board_by_uuid want_online want_agent check_dns_available is_webservice_enabled
      enable_again enable_new warn
  enable_webservice dns zone email board_uuid = do
    board ← load (get_board_by_uuid board_uuid)
    want_online board
    want_agent board
    available ← check_dns_available (Value.str dns)
    (if available
        then (do
          enabled ← is_webservice_enabled (board.row Column.uuid)
          (if enabled then enable_again board else enable_new board board_uuid dns zone email))
        else (do
          warn board "enable_webservice" "DNS already exists!"
          raise (Exception.dns_webservice_already_exists (Value.str dns))))
