-- ===== src/Conductor/Calls/Sessions.antt =====
-- No sequence of calls leaves a board with two valid sessions.
use stack4things_openstack_i.Action.{World}
use stack4things_openstack_i.Base.{String, [], arith, filter, length, subst, sym, ◌≡◌, ◌≤◌}
use stack4things_openstack_i.Conductor.Calls.{Reach, Step}
use stack4things_openstack_i.Conductor.Keeping.{
  action_board-Keeps, action_plugin-Keeps, create_board_endpoint-Keeps, create_fleet_endpoint-Keeps,
  create_plugin_endpoint-Keeps, create_service_endpoint-Keeps, destroy_board_endpoint-Keeps,
  destroy_fleet_endpoint-Keeps, destroy_plugin_endpoint-Keeps, destroy_service_endpoint-Keeps,
  inject_plugin-Keeps, remove_plugin-Keeps, status_services_on_board-Keeps,
  update_board_endpoint-Keeps, update_fleet_endpoint-Keeps, update_plugin_endpoint-Keeps,
  update_service_endpoint-Keeps,
}
use stack4things_openstack_i.Conductor.Ports.{PortConfig}
use stack4things_openstack_i.Conductor.Requests.Keeping.{
  execute_on_board-Keeps, notify_result-Keeps,
}
use stack4things_openstack_i.Conductor.Services.Keeping.{
  action_service-Keeps, restore_services_on_board-Keeps,
}
use stack4things_openstack_i.Conductor.Vifs.Keeping.{
  create_port_on_board-Keeps, remove_vif_from_board-Keeps,
}
use stack4things_openstack_i.Conductor.Webservices.Enabling.Keeping.{
  disable_webservice-Keeps, enable_webservice-Keeps,
}
use stack4things_openstack_i.Conductor.Webservices.Keeping.{
  create_webservice_endpoint-Keeps, destroy_webservice_endpoint-Keeps, renew_webservice-Keeps,
}
use stack4things_openstack_i.Db.Engine.{Engine}
use stack4things_openstack_i.Db.Schema.{Model, Row, Value}
use stack4things_openstack_i.Wamp.Sessions.Entering.{connection-Keeps, registration-Keeps}
use stack4things_openstack_i.Wamp.Sessions.Joining.{valid_of}
use stack4things_openstack_i.Wamp.Sessions.Keeping.{
  Single, board_on_leave-Keeps, update_sessions-Keeps,
}
use stack4things_openstack_i.Wamp.Sessions.Single.{IsSingle}

module _ ⦃E : Engine⦄ (conf : PortConfig) (stamp : Row → String → Value) (url : Value)
    (dumps : Value → Value) where
  pub Step-Keeps : {w v : World} → Step conf stamp url dumps w v → Single w.tables → Single v.tables
  Step-Keeps (Step.elapses e) h = rw e h
  Step-Keeps (Step.registers a b) h = (registration-Keeps stamp url a b).at _ h
  Step-Keeps (Step.connects a b c) h = (connection-Keeps a b c).at _ h
  Step-Keeps (Step.leaves a) h = (board_on_leave-Keeps a).at _ h
  Step-Keeps (Step.checks a b) h = (update_sessions-Keeps a b).at _ h
  Step-Keeps (Step.notifies a b) h = (notify_result-Keeps a b).at _ h
  Step-Keeps (Step.executes a b c d) h = (execute_on_board-Keeps a b c d).at _ h
  Step-Keeps (Step.creates_board a b) h = (create_board_endpoint-Keeps a b).at _ h
  Step-Keeps (Step.updates_board a) h = (update_board_endpoint-Keeps a).at _ h
  Step-Keeps (Step.destroys_board a) h = (destroy_board_endpoint-Keeps a).at _ h
  Step-Keeps (Step.acts_on_board a b c) h = (action_board-Keeps a b c).at _ h
  Step-Keeps (Step.creates_plugin a) h = (create_plugin_endpoint-Keeps dumps a).at _ h
  Step-Keeps (Step.updates_plugin a) h = (update_plugin_endpoint-Keeps a).at _ h
  Step-Keeps (Step.destroys_plugin a) h = (destroy_plugin_endpoint-Keeps a).at _ h
  Step-Keeps (Step.injects_plugin a b c) h = (inject_plugin-Keeps a b c).at _ h
  Step-Keeps (Step.removes_plugin a b) h = (remove_plugin-Keeps a b).at _ h
  Step-Keeps (Step.acts_on_plugin a b c d) h = (action_plugin-Keeps a b c d).at _ h
  Step-Keeps (Step.creates_service a) h = (create_service_endpoint-Keeps a).at _ h
  Step-Keeps (Step.updates_service a) h = (update_service_endpoint-Keeps a).at _ h
  Step-Keeps (Step.destroys_service a) h = (destroy_service_endpoint-Keeps a).at _ h
  Step-Keeps (Step.acts_on_service a b c) h = (action_service-Keeps conf a b c).at _ h
  Step-Keeps (Step.restores_services a) h = (restore_services_on_board-Keeps conf a).at _ h
  Step-Keeps (Step.creates_fleet a) h = (create_fleet_endpoint-Keeps a).at _ h
  Step-Keeps (Step.updates_fleet a) h = (update_fleet_endpoint-Keeps a).at _ h
  Step-Keeps (Step.destroys_fleet a) h = (destroy_fleet_endpoint-Keeps a).at _ h
  Step-Keeps (Step.creates_webservice a) h = (create_webservice_endpoint-Keeps a).at _ h
  Step-Keeps (Step.destroys_webservice a) h = (destroy_webservice_endpoint-Keeps a).at _ h
  Step-Keeps (Step.enables_webservice a b c d) h = (enable_webservice-Keeps conf a b c d).at _ h
  Step-Keeps (Step.disables_webservice a) h = (disable_webservice-Keeps a).at _ h
  Step-Keeps (Step.renews_webservice a) h = (renew_webservice-Keeps a).at _ h
  Step-Keeps (Step.creates_port a b c d e) h = (create_port_on_board-Keeps a b c d e).at _ h
  Step-Keeps (Step.removes_port a b) h = (remove_vif_from_board-Keeps a b).at _ h
  Step-Keeps (Step.asks_status a) h = (status_services_on_board-Keeps a).at _ h

  Reach-Keeps : {w v : World} → Reach conf stamp url dumps w v → Single w.tables → Single v.tables
  Reach-Keeps Reach.stays h = h
  Reach-Keeps (Reach.goes_on r s) h = Step-Keeps s (Reach-Keeps r h)

  pub none-IsSingle : IsSingle []
  unfolding filter
  none-IsSingle = record { one_valid = λ u. omega arith; numbers = tt; one_key = λ z. omega arith }

  -- Whatever calls are handled, one after the other, and whether they return or raise: from tables
  -- without sessions on, no board has more than one valid session.
  pub valid_sessions_at_most_one :
      (w v : World)
      → w.tables Model.session ≡ []
      → Reach conf stamp url dumps w v
      → (u : String) → length (filter (valid_of (Value.str u)) (v.tables Model.session)) ≤ 1
  valid_sessions_at_most_one w v h r u =
      (Reach-Keeps r (subst IsSingle (sym h) none-IsSingle)).one_valid u
