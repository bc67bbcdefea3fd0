-- ===== src/Conductor/Services/Keeping.antt =====
-- The handlers of iotronic/conductor/endpoints.py for exposed services keep at most one valid
-- session of each board.
use stack4things_openstack_i.Action.{Action, Result, ok, raised, ◌>>=◌}
use stack4things_openstack_i.Action.Keeps.{Keeps, bind-Keeps, if-Keeps, keeps_rules, pure-Keeps}
use stack4things_openstack_i.Base.{List, Option, String, [], none, pos, some, suc, zero, ℕ, ◌∷◌}
use stack4things_openstack_i.Conductor.Ports.{
  PortConfig, random_public_port, refill, set_free_ports, take_port,
}
use stack4things_openstack_i.Conductor.Requests.Keeping.{
  execute_on_board-Keeps, manage_result-Keeps,
}
use stack4things_openstack_i.Conductor.Services.{
  Answer, action_service, choose_action, disable_service, enable_service, expose_on, expose_port,
  get_service, release_port, restore_exposed, restore_service, restore_services_on_board,
  unless_exposed,
}
use stack4things_openstack_i.Db.Engine.{Engine}
use stack4things_openstack_i.Db.Keeping.{
  all-Keeps, delete_rows-Keeps, ensure_uuid-Keeps, insert_row-Keeps, on_duplicate-Keeps, one-Keeps,
}
use stack4things_openstack_i.Db.Schema.{Model, Row, Value, Values}
use stack4things_openstack_i.Db.Services.{
  create_exposed_service, destroy_exposed_service, get_exposed_service_by_uuids,
  get_exposed_service_list, get_exposed_services_by_board_uuid, get_service_by_id,
  get_service_by_uuid,
}
use stack4things_openstack_i.Objects.{Object, get_all_ports}
use stack4things_openstack_i.Objects.Keeping.{get_by-Keeps}
use stack4things_openstack_i.Objects.Kinds.{get_by}
use stack4things_openstack_i.Wamp.Sessions.Keeping.{
  Single, for_each-Keeps, get_board_by_uuid-Keeps, load-Keeps,
}
use stack4things_openstack_i.Wamp.Sessions.Single.{IsSingle, filter-IsSingle}

module _ ⦃E : Engine⦄ where
  get_service_by_id-Keeps : (a : Value) → Keeps Single (get_service_by_id a)
  unfolding get_service_by_id
  get_service_by_id-Keeps a = search (keeps_rules, one-Keeps) depth 40

  get_service_by_uuid-Keeps : (a : Value) → Keeps Single (get_service_by_uuid a)
  unfolding get_service_by_uuid
  get_service_by_uuid-Keeps a = search (keeps_rules, one-Keeps) depth 40

  get_exposed_service_by_uuids-Keeps :
      (a : Value) (b : Value) → Keeps Single (get_exposed_service_by_uuids a b)
  unfolding get_exposed_service_by_uuids
  get_exposed_service_by_uuids-Keeps a b = search (keeps_rules, one-Keeps) depth 40

  get_exposed_services_by_board_uuid-Keeps :
      (a : Value) → Keeps Single (get_exposed_services_by_board_uuid a)
  unfolding get_exposed_services_by_board_uuid
  get_exposed_services_by_board_uuid-Keeps a = search (keeps_rules, all-Keeps) depth 40

  get_exposed_service_list-Keeps : (a : Value) → Keeps Single (get_exposed_service_list a)
  unfolding get_exposed_service_list
  get_exposed_service_list-Keeps a = search (keeps_rules, all-Keeps) depth 40

  create_exposed_service-Keeps : (a : Values) → Keeps Single (create_exposed_service a)
  unfolding create_exposed_service
  create_exposed_service-Keeps a =
      search
        (
          keeps_rules,
          insert_row-Keeps Model.session IsSingle,
          ensure_uuid-Keeps,
          on_duplicate-Keeps,
        )
        depth 40

  destroy_exposed_service-Keeps : (a : Value) → Keeps Single (destroy_exposed_service a)
  unfolding destroy_exposed_service
  destroy_exposed_service-Keeps a =
      search (keeps_rules, delete_rows-Keeps Model.session IsSingle, filter-IsSingle) depth 40

  get_all_ports-Keeps : Keeps Single (get_all_ports)
  unfolding get_all_ports
  get_all_ports-Keeps = search (keeps_rules, get_exposed_service_list-Keeps) depth 40

  set_free_ports-Keeps : (ps : List ℕ) → Keeps Single (set_free_ports ps)
  set_free_ports-Keeps ps = record { at = λ w h. h }

  pub release_port-Keeps : (v : Value) → Keeps Single (release_port v)
  unfolding release_port
  release_port-Keeps (Value.int (pos n)) = record { at = λ w h. h }
  release_port-Keeps v = record { at = λ w h. h }

  module _ (conf : PortConfig) where
    refill-Keeps : (ps : List ℕ) → Keeps Single (refill conf ps)
    unfolding refill
    refill-Keeps [] = search (keeps_rules, get_all_ports-Keeps, set_free_ports-Keeps) depth 40
    refill-Keeps (p ∷ ps) = pure-Keeps (p ∷ ps)

    take_port-Keeps : (ps : List ℕ) → Keeps Single (take_port conf ps)
    unfolding take_port
    take_port-Keeps [] = pure-Keeps none
    take_port-Keeps (p ∷ ps) = search (keeps_rules, set_free_ports-Keeps) depth 40

    pub random_public_port-Keeps : Keeps Single (random_public_port conf)
    unfolding random_public_port
    random_public_port-Keeps = record {
      at = λ w h.
          (bind-Keeps (refill conf w.free_ports) (take_port conf) (refill-Keeps w.free_ports)
              take_port-Keeps).at
            w h;
    }

    get_service-Keeps : (i : Value) → Keeps Single (get_service conf i)
    unfolding get_service get_by
    get_service-Keeps i =
        get_by-Keeps get_service_by_id get_service_by_uuid i get_service_by_id-Keeps
          get_service_by_uuid-Keeps

    expose_on-Keeps : (b s : Object) (u v : Value) (n : ℕ) → Keeps Single (expose_on conf b s u v n)
    unfolding expose_on
    expose_on-Keeps b s u v n =
        search
          (keeps_rules, execute_on_board-Keeps, manage_result-Keeps, create_exposed_service-Keeps)
          depth 40

    expose_port-Keeps :
        (b s : Object) (u v : Value) (p : Option ℕ) → Keeps Single (expose_port conf b s u v p)
    expose_port-Keeps b s u v none = pure-Keeps _
    expose_port-Keeps b s u v (some zero) = pure-Keeps _
    expose_port-Keeps b s u v (some (suc n)) = expose_on-Keeps b s u v (suc n)

    unless_exposed-Keeps :
        (v : Value) (m : Action Answer) (r : Result Row)
        → Keeps Single m
        → Keeps Single (unless_exposed conf v m r)
    unless_exposed-Keeps v m (ok r) km = pure-Keeps _
    unless_exposed-Keeps v m (raised e) km = km

    enable_service-Keeps : (b s : Object) (u v : Value) → Keeps Single (enable_service conf b s u v)
    unfolding enable_service
    enable_service-Keeps b s u v = record {
      at = λ w h.
          (unless_exposed-Keeps v (random_public_port conf >>= expose_port conf b s u v)
              (get_exposed_service_by_uuids u v w).0
              (bind-Keeps (random_public_port conf) (expose_port conf b s u v)
                random_public_port-Keeps (expose_port-Keeps b s u v))).at
            (get_exposed_service_by_uuids u v w).1
            ((get_exposed_service_by_uuids-Keeps u v).at w h);
    }

    disable_service-Keeps :
        (b s : Object) (u v : Value) → Keeps Single (disable_service conf b s u v)
    unfolding disable_service
    disable_service-Keeps b s u v =
        search
          (
            keeps_rules, get_exposed_service_by_uuids-Keeps, execute_on_board-Keeps,
            manage_result-Keeps, release_port-Keeps, destroy_exposed_service-Keeps,
          )
          depth 40

    restore_service-Keeps : (s : Object) (u v : Value) → Keeps Single (restore_service conf s u v)
    unfolding restore_service
    restore_service-Keeps s u v =
        search
          (
            keeps_rules, get_exposed_service_by_uuids-Keeps, execute_on_board-Keeps,
            manage_result-Keeps,
          )
          depth 40

    choose_action-Keeps :
        (a : String) (b s : Object) (u v : Value) → Keeps Single (choose_action conf a b s u v)
    choose_action-Keeps a b s u v =
        search (if-Keeps, enable_service-Keeps, disable_service-Keeps, restore_service-Keeps)

    pub action_service-Keeps : (v u : Value) (a : String) → Keeps Single (action_service conf v u a)
    unfolding action_service
    action_service-Keeps v u a =
        search
          (keeps_rules, get_service-Keeps, load-Keeps, get_board_by_uuid-Keeps, choose_action-Keeps)
          depth 40

    restore_exposed-Keeps : (u : Value) (r : Row) → Keeps Single (restore_exposed conf u r)
    unfolding restore_exposed
    restore_exposed-Keeps u r =
        search (keeps_rules, load-Keeps, get_service_by_uuid-Keeps, execute_on_board-Keeps) depth 40

    pub restore_services_on_board-Keeps :
        (u : Value) → Keeps Single (restore_services_on_board conf u)
    unfolding restore_services_on_board
    restore_services_on_board-Keeps u =
        search
          (
            keeps_rules, get_exposed_services_by_board_uuid-Keeps, for_each-Keeps,
            restore_exposed-Keeps,
          )
          depth 40
