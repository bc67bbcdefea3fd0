-- ===== src/Conductor/Webservices/Keeping.antt =====
-- The handlers of iotronic/conductor/endpoints.py for web services, and the DNS records, keep at most
-- one valid session of each board.
use stack4things_openstack_i.Action.{Action, Call, Exception, ask, call, pure}
use stack4things_openstack_i.Action.Keeps.{
  Keeps, bind-Keeps, call-Keeps, if-Keeps, keeps_rules, pure-Keeps, raise-Keeps,
}
use stack4things_openstack_i.Base.{List, Option, String, [], false, none, some, ◌∷◌}
use stack4things_openstack_i.Conductor.Dns.{
  agent_ip, create_record, create_record_dns, create_record_dns_webservice, delete_record,
  get_record, zone_of,
}
use stack4things_openstack_i.Conductor.Keeping.{except_module-Keeps, get_board-Keeps}
use stack4things_openstack_i.Conductor.Requests.Keeping.{
  execute_on_board-Keeps, manage_result-Keeps, new_req-Keeps, new_res-Keeps, save_request-Keeps,
  save_result-Keeps,
}
use stack4things_openstack_i.Conductor.Webservices.{
  agent_call, create_webservice_endpoint, destroy_webservice_endpoint, expose_unless,
  expose_webservice, find_webservice, renew_webservice, unexpose_webservice, want_agent,
  want_online, warn,
}
use stack4things_openstack_i.Db.Engine.{Engine}
use stack4things_openstack_i.Db.Fleets.{
  create_webservice, destroy_webservice, get_enabled_webservice_by_board_uuid,
  get_webservice_by_uuid, get_webservice_list,
}
use stack4things_openstack_i.Db.Keeping.{create_row-Keeps, destroy_row-Keeps, one-Keeps}
use stack4things_openstack_i.Db.Schema.{Column, Model, Row, Tables, Value}
use stack4things_openstack_i.Objects.{
  Object, from_db_object, get_board, is_webservice_enabled, not_enabled,
}
use stack4things_openstack_i.Objects.Kinds.{
  create_webservice_object, destroy_webservice_object, get_enabled_webservice,
}
use stack4things_openstack_i.Wamp.Sessions.Entering.{get_wampagent-Keeps}
use stack4things_openstack_i.Wamp.Sessions.Keeping.{Single, get_board_by_uuid-Keeps, load-Keeps}
use stack4things_openstack_i.Wamp.Sessions.Single.{IsSingle, filter-IsSingle}

module _ ⦃E : Engine⦄ where
  pub ask-Keeps : {P : Tables → Type 0} (c : Call) → Keeps P (ask c)
  unfolding ask
  ask-Keeps c = bind-Keeps (call c) _ (call-Keeps c) (λ m. pure-Keeps m.message)

  zone_of-Keeps : (a : Value) → Keeps Single (zone_of a)
  unfolding zone_of
  zone_of-Keeps a = search (keeps_rules, ask-Keeps) depth 40

  get_record-Keeps : (a : Value) (b : Value) → Keeps Single (get_record a b)
  unfolding get_record
  get_record-Keeps a b = search (keeps_rules, ask-Keeps) depth 40

  create_record-Keeps : (a : Value) (b : Value) (c : Value) → Keeps Single (create_record a b c)
  unfolding create_record
  create_record-Keeps a b c =
      search (keeps_rules, zone_of-Keeps, get_record-Keeps, ask-Keeps) depth 40

  pub delete_record-Keeps : (a : Value) (b : Value) → Keeps Single (delete_record a b)
  unfolding delete_record
  delete_record-Keeps a b =
      search (keeps_rules, zone_of-Keeps, get_record-Keeps, ask-Keeps) depth 40

  agent_ip-Keeps : (a : Object) → Keeps Single (agent_ip a)
  unfolding agent_ip
  agent_ip-Keeps a = search (keeps_rules, ask-Keeps, load-Keeps, get_wampagent-Keeps) depth 40

  pub create_record_dns-Keeps :
      (a : Object) (b : String) (c : String) → Keeps Single (create_record_dns a b c)
  unfolding create_record_dns
  create_record_dns-Keeps a b c = search (keeps_rules, agent_ip-Keeps, create_record-Keeps) depth 40

  create_record_dns_webservice-Keeps :
      (a : Object) (b : String) (c : String) (d : String)
      → Keeps Single (create_record_dns_webservice a b c d)
  unfolding create_record_dns_webservice
  create_record_dns_webservice-Keeps a b c d =
      search (keeps_rules, agent_ip-Keeps, create_record-Keeps) depth 40

  pub warn-Keeps : (a : Object) (b : String) (c : String) → Keeps Single (warn a b c)
  unfolding warn
  warn-Keeps a b c =
      search (keeps_rules, new_req-Keeps, new_res-Keeps, save_result-Keeps, save_request-Keeps)
        depth 40

  pub agent_call-Keeps :
      (a : Object) (b : String) (c : List Value) → Keeps Single (agent_call a b c)
  unfolding agent_call
  agent_call-Keeps a b c = search (keeps_rules, call-Keeps) depth 40

  pub want_online-Keeps : (a : Object) → Keeps Single (want_online a)
  unfolding want_online
  want_online-Keeps a = search (keeps_rules) depth 40

  pub want_agent-Keeps : (a : Object) → Keeps Single (want_agent a)
  unfolding want_agent
  want_agent-Keeps a = search (keeps_rules) depth 40

  find_webservice-Keeps : (o : Object) (rs : List Row) → Keeps Single (find_webservice o rs)
  unfolding find_webservice
  find_webservice-Keeps o [] = pure-Keeps none
  find_webservice-Keeps o (r ∷ rs) =
      let here : Action (Option Object) = pure (some (from_db_object r)) in
      bind-Keeps (get_board (r Column.board_uuid)) _ (get_board-Keeps (r Column.board_uuid))
        (λ _. if-Keeps _ here (find_webservice o rs) (pure-Keeps _) (find_webservice-Keeps o rs))

  pub get_enabled_webservice-Keeps : (a : Value) → Keeps Single (get_enabled_webservice a)
  unfolding get_enabled_webservice get_enabled_webservice_by_board_uuid
  get_enabled_webservice-Keeps a = search (keeps_rules, one-Keeps, load-Keeps) depth 40

  create_webservice_object-Keeps : (a : Object) → Keeps Single (create_webservice_object a)
  unfolding create_webservice_object create_webservice
  create_webservice_object-Keeps a =
      search (keeps_rules, create_row-Keeps Model.session IsSingle, load-Keeps) depth 40

  destroy_webservice_object-Keeps : (a : Object) → Keeps Single (destroy_webservice_object a)
  unfolding destroy_webservice_object destroy_webservice
  destroy_webservice_object-Keeps a =
      search (keeps_rules, destroy_row-Keeps Model.session IsSingle, filter-IsSingle) depth 40

  expose_webservice-Keeps :
      (a : Object) (b : Object) (c : List Row) → Keeps Single (expose_webservice a b c)
  unfolding expose_webservice
  expose_webservice-Keeps a b c =
      search
        (
          keeps_rules, get_enabled_webservice-Keeps, create_record_dns_webservice-Keeps,
          except_module-Keeps, execute_on_board-Keeps, agent_call-Keeps,
          create_webservice_object-Keeps, manage_result-Keeps,
        )
        depth 40

  expose_unless-Keeps :
      (b n : Object) (rs : List Row) (found : Option Object)
      → Keeps Single (expose_unless b n rs found)
  unfolding expose_unless
  expose_unless-Keeps b n rs none = expose_webservice-Keeps b n rs
  expose_unless-Keeps b n rs (some webs) = search (bind-Keeps, warn-Keeps, pure-Keeps)

  pub create_webservice_endpoint-Keeps : (a : Object) → Keeps Single (create_webservice_endpoint a)
  unfolding create_webservice_endpoint get_webservice_list
  create_webservice_endpoint-Keeps a =
      search
        (
          keeps_rules, load-Keeps, get_board_by_uuid-Keeps, want_online-Keeps,
          find_webservice-Keeps, expose_unless-Keeps,
        )
        depth 40

  unexpose_webservice-Keeps :
      (a : Object) (b : Object) (c : Object) → Keeps Single (unexpose_webservice a b c)
  unfolding unexpose_webservice get_webservice_list
  unexpose_webservice-Keeps a b c =
      search
        (
          keeps_rules, except_module-Keeps, execute_on_board-Keeps, want_agent-Keeps,
          agent_call-Keeps,
        )
        depth 40

  pub destroy_webservice_endpoint-Keeps : (a : Value) → Keeps Single (destroy_webservice_endpoint a)
  unfolding destroy_webservice_endpoint get_webservice_by_uuid
  destroy_webservice_endpoint-Keeps a =
      search
        (
          keeps_rules, load-Keeps, one-Keeps, get_board_by_uuid-Keeps, get_enabled_webservice-Keeps,
          unexpose_webservice-Keeps, destroy_webservice_object-Keeps, delete_record-Keeps,
        )
        depth 40

  not_enabled-Keeps : {P : Tables → Type 0} (x : Exception) → Keeps P (not_enabled x)
  not_enabled-Keeps (Exception.enabled_webservice_not_found v) = pure-Keeps false
  not_enabled-Keeps x = raise-Keeps x

  pub is_webservice_enabled-Keeps : (a : Value) → Keeps Single (is_webservice_enabled a)
  unfolding is_webservice_enabled get_enabled_webservice_by_board_uuid
  is_webservice_enabled-Keeps a = search (keeps_rules, one-Keeps, not_enabled-Keeps) depth 40

  pub renew_webservice-Keeps : (a : Value) → Keeps Single (renew_webservice a)
  unfolding renew_webservice
  renew_webservice-Keeps a =
      search
        (
          keeps_rules, load-Keeps, get_board_by_uuid-Keeps, want_online-Keeps, want_agent-Keeps,
          is_webservice_enabled-Keeps, new_req-Keeps, execute_on_board-Keeps, warn-Keeps,
          manage_result-Keeps,
        )
        depth 40
