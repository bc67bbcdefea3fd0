-- ===== src/Conductor/Webservices/Enabling/Keeping.antt =====
-- Enabling and disabling web services keeps at most one valid session of each board.
use stack4things_openstack_i.Action.{Action, Exception}
use stack4things_openstack_i.Action.Keeps.{Keeps, bind-Keeps, catch-Keeps, keeps_rules, pure-Keeps}
use stack4things_openstack_i.Base.{Option, String, none, some, ℕ}
use stack4things_openstack_i.Conductor.Keeping.{except_module-Keeps}
use stack4things_openstack_i.Conductor.Plugins.{found_or_none}
use stack4things_openstack_i.Conductor.Ports.{PortConfig, webservice_ports}
use stack4things_openstack_i.Conductor.Requests.Keeping.{
  execute_on_board-Keeps, manage_result-Keeps, new_req-Keeps, new_res-Keeps, save_request-Keeps,
  save_result-Keeps,
}
use stack4things_openstack_i.Conductor.Services.Keeping.{
  random_public_port-Keeps, release_port-Keeps,
}
use stack4things_openstack_i.Conductor.Webservices.{returned}
use stack4things_openstack_i.Conductor.Webservices.Disabling.{
  disable_on_board, disable_part, disable_webservice, drop_proxy,
}
use stack4things_openstack_i.Conductor.Webservices.Enabling.{
  enable_again, enable_new, enable_on, enable_part, enable_webservice, enable_with, open_webservice,
  set_up_proxy,
}
use stack4things_openstack_i.Conductor.Webservices.Keeping.{
  agent_call-Keeps, create_record_dns-Keeps, delete_record-Keeps, get_enabled_webservice-Keeps,
  is_webservice_enabled-Keeps, want_agent-Keeps, want_online-Keeps, warn-Keeps,
}
use stack4things_openstack_i.Db.Engine.{Engine}
use stack4things_openstack_i.Db.Fleets.{
  create_enabled_webservice, destroy_enabled_webservice, get_enabled_webservice_by_name,
}
use stack4things_openstack_i.Db.Keeping.{create_row-Keeps, destroy_row-Keeps, one-Keeps}
use stack4things_openstack_i.Db.Schema.{Column, Model, Tables, Value}
use stack4things_openstack_i.Db.Services.{get_exposed_service_by_uuids, get_service_by_name}
use stack4things_openstack_i.Objects.{Object, check_dns_available}
use stack4things_openstack_i.Objects.Keeping.{
  create_exposed_service_object-Keeps, destroy_exposed_service_object-Keeps,
}
use stack4things_openstack_i.Objects.Kinds.{
  create_enabled_webservice_object, destroy_enabled_webservice_object, get_exposed_service,
}
use stack4things_openstack_i.Wamp.Sessions.Keeping.{Single, get_board_by_uuid-Keeps, load-Keeps}
use stack4things_openstack_i.Wamp.Sessions.Single.{IsSingle, filter-IsSingle}

module _ ⦃E : Engine⦄ where
  get_exposed_service-Keeps : (a : Value) (b : Value) → Keeps Single (get_exposed_service a b)
  unfolding get_exposed_service get_exposed_service_by_uuids
  get_exposed_service-Keeps a b = search (keeps_rules, one-Keeps, load-Keeps) depth 40

  get_service_by_name-Keeps : (a : Value) → Keeps Single (get_service_by_name a)
  unfolding get_service_by_name
  get_service_by_name-Keeps a = search (keeps_rules, one-Keeps) depth 40

  create_enabled_webservice_object-Keeps :
      (a : Object) → Keeps Single (create_enabled_webservice_object a)
  unfolding create_enabled_webservice_object create_enabled_webservice
  create_enabled_webservice_object-Keeps a =
      search (keeps_rules, create_row-Keeps Model.session IsSingle, load-Keeps) depth 40

  destroy_enabled_webservice_object-Keeps :
      (a : Object) → Keeps Single (destroy_enabled_webservice_object a)
  unfolding destroy_enabled_webservice_object destroy_enabled_webservice
  destroy_enabled_webservice_object-Keeps a =
      search (keeps_rules, destroy_row-Keeps Model.session IsSingle, filter-IsSingle) depth 40

  check_dns_available-Keeps : (a : Value) → Keeps Single (check_dns_available a)
  unfolding check_dns_available get_enabled_webservice_by_name
  check_dns_available-Keeps a = search (keeps_rules) depth 40

  found_or_none-Keeps :
      {P : Tables → Type 0} {A : Type 0} (m : Action A) → Keeps P m → Keeps P (found_or_none m)
  found_or_none-Keeps m km =
      catch-Keeps _ _ (bind-Keeps m _ km (λ a. pure-Keeps (some a))) (λ e. pure-Keeps none)

  disable_part-Keeps :
      (a : Object) (b : Value) (c : String) (d : Value) → Keeps Single (disable_part a b c d)
  unfolding disable_part
  disable_part-Keeps a b c d =
      search
        (
          keeps_rules, load-Keeps, get_service_by_name-Keeps, get_exposed_service-Keeps,
          execute_on_board-Keeps,
        )
        depth 40

  disable_on_board-Keeps : (a : Object) (b : Value) → Keeps Single (disable_on_board a b)
  unfolding disable_on_board
  disable_on_board-Keeps a b =
      search (keeps_rules, except_module-Keeps, execute_on_board-Keeps) depth 40

  drop_proxy-Keeps : (a : Object) (b : Object) → Keeps Single (drop_proxy a b)
  unfolding drop_proxy
  drop_proxy-Keeps a b = search (keeps_rules, agent_call-Keeps) depth 40

  pub disable_webservice-Keeps : (a : Value) → Keeps Single (disable_webservice a)
  unfolding disable_webservice
  disable_webservice-Keeps a =
      search
        (
          keeps_rules, load-Keeps, get_board_by_uuid-Keeps, want_agent-Keeps, new_req-Keeps,
          get_enabled_webservice-Keeps, disable_part-Keeps, destroy_exposed_service_object-Keeps,
          release_port-Keeps, disable_on_board-Keeps, delete_record-Keeps, drop_proxy-Keeps,
          agent_call-Keeps, destroy_enabled_webservice_object-Keeps,
        )
        depth 40

  module _ (conf : PortConfig) where
    enable_again-Keeps : (a : Object) → Keeps Single (enable_again conf a)
    unfolding enable_again
    enable_again-Keeps a =
        search
          (
            keeps_rules, new_req-Keeps, new_res-Keeps, get_enabled_webservice-Keeps,
            save_result-Keeps, save_request-Keeps,
          )
          depth 40

    webservice_ports-Keeps : Keeps Single (webservice_ports conf)
    unfolding webservice_ports
    webservice_ports-Keeps = search (keeps_rules, random_public_port-Keeps) depth 40

    enable_part-Keeps :
        (a : Object) (b : Value) (c : Value) (d : Value) (e : Value)
        → Keeps Single (enable_part conf a b c d e)
    unfolding enable_part
    enable_part-Keeps a b c d e =
        search
          (
            keeps_rules, execute_on_board-Keeps, manage_result-Keeps,
            create_exposed_service_object-Keeps,
          )
          depth 40

    set_up_proxy-Keeps :
        (a : Object) (b : String) (c : String) (d : Value) (e : Value) (f : Value) (g : Value)
        → Keeps Single (set_up_proxy conf a b c d e f g)
    unfolding set_up_proxy
    set_up_proxy-Keeps a b c d e f g =
        search (keeps_rules, agent_call-Keeps, except_module-Keeps, execute_on_board-Keeps) depth 40

    open_webservice-Keeps :
        (b : Object) (u : Value) (en : Object) (d z : String) (e p q r : Value)
        → Keeps Single (open_webservice conf b u en d z e p q r)
    unfolding open_webservice
    open_webservice-Keeps b u en d z e p q r =
        search
          (
            keeps_rules, load-Keeps, get_service_by_name-Keeps, agent_call-Keeps, enable_part-Keeps,
            set_up_proxy-Keeps,
          )
          depth 60

    enable_on-Keeps :
        (b : Object) (u : Value) (d z : String) (e m : Value) (ports : Option (ℕ × ℕ))
        → Keeps Single (enable_on conf b u d z e m ports)
    unfolding enable_on
    enable_on-Keeps b u d z e m none = pure-Keeps (returned Exception.not_enough_port_for_service)
    enable_on-Keeps b u d z e m (some (p, q)) =
        search (keeps_rules, create_enabled_webservice_object-Keeps, open_webservice-Keeps)

    enable_with-Keeps :
        (b : Object) (u : Value) (d z : String) (e m : Value) (found : Option Object)
        → Keeps Single (enable_with conf b u d z e m found)
    unfolding enable_with
    enable_with-Keeps b u d z e m none =
        search (keeps_rules, webservice_ports-Keeps, enable_on-Keeps)
    enable_with-Keeps b u d z e m (some en) =
        open_webservice-Keeps b u en d z e (en.row Column.http_port) (en.row Column.https_port) m

    enable_new-Keeps :
        (a : Object) (b : Value) (c : String) (d : String) (e : Value)
        → Keeps Single (enable_new conf a b c d e)
    unfolding enable_new
    enable_new-Keeps a b c d e =
        search
          (
            keeps_rules, new_req-Keeps, except_module-Keeps, create_record_dns-Keeps,
            found_or_none-Keeps, get_enabled_webservice-Keeps, enable_with-Keeps,
          )
          depth 40

    pub enable_webservice-Keeps :
        (a : String) (b : String) (c : Value) (d : Value)
        → Keeps Single (enable_webservice conf a b c d)
    unfolding enable_webservice
    enable_webservice-Keeps a b c d =
        search
          (
            keeps_rules, load-Keeps, get_board_by_uuid-Keeps, want_online-Keeps, want_agent-Keeps,
            check_dns_available-Keeps, is_webservice_enabled-Keeps, enable_again-Keeps,
            enable_new-Keeps, warn-Keeps,
          )
          depth 40
