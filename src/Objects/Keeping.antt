-- ===== src/Objects/Keeping.antt =====
-- Creating, saving and destroying objects other than sessions keep at most one valid session of each board.
use stack4things_openstack_i.Action.{Action, Exception}
use stack4things_openstack_i.Action.Keeps.{
  Keeps, bind-Keeps, if-Keeps, keeps_rules, lift-Keeps, or_not_found-Keeps, pure-Keeps, raise-Keeps,
  transaction-Keeps,
}
use stack4things_openstack_i.Base.{Option-cases, false, if◌then◌else◌, inl, inr}
use stack4things_openstack_i.Db.Boards.{
  add_location_filter_by_board, board_duplicate, create_board, create_location, destroy_board,
  destroy_board_steps, get_board_by_name,
}
use stack4things_openstack_i.Db.Engine.{Engine}
use stack4things_openstack_i.Db.Fleets.{create_fleet, destroy_fleet, update_fleet}
use stack4things_openstack_i.Db.Keeping.{
  create_row-Keeps, delete_rows-Keeps, destroy_row-Keeps, ensure_uuid-Keeps, insert_row-Keeps,
  one-Keeps, update_row-Keeps,
}
use stack4things_openstack_i.Db.Plugins.{
  create_injection_plugin, create_plugin, destroy_injection_plugin, destroy_plugin,
  get_injection_plugin_by_uuids, update_injection_plugin, update_plugin,
}
use stack4things_openstack_i.Db.Query.{add_identity_filter, delete_rows, is_uuid_like}
use stack4things_openstack_i.Db.Schema.{Column, Model, Row, Tables, Value, Values}
use stack4things_openstack_i.Db.Services.{
  create_exposed_service, create_service, destroy_exposed_service, destroy_service, update_service,
}
use stack4things_openstack_i.Objects.{Object, exists_by_name, missing_board}
use stack4things_openstack_i.Objects.Kinds.{
  create_exposed_service_object, create_fleet_object, create_injection_plugin_object,
  create_plugin_object, create_service_object, destroy_exposed_service_object, destroy_fleet_object,
  destroy_injection_plugin_object, destroy_plugin_object, destroy_service_object, get_by,
  get_injection_plugin, save_fleet, save_injection_plugin, save_plugin, save_service,
}
use stack4things_openstack_i.Wamp.Sessions.Keeping.{Single, load-Keeps}
use stack4things_openstack_i.Wamp.Sessions.Single.{IsSingle, filter-IsSingle}

module _ ⦃E : Engine⦄ where
  board_duplicate-Keeps :
      {P : Tables → Type 0} (vs : Values) (x : Exception) → Keeps P (board_duplicate vs x)
  board_duplicate-Keeps vs (Exception.db_duplicate_entry cs) = search (if-Keeps, raise-Keeps)
  board_duplicate-Keeps vs x = raise-Keeps x

  pub create_board-Keeps : (a : Values) → Keeps Single (create_board a)
  unfolding create_board
  create_board-Keeps a =
      search
        (
          keeps_rules,
          insert_row-Keeps Model.session IsSingle,
          ensure_uuid-Keeps,
          board_duplicate-Keeps,
        )
        depth 40

  pub create_location-Keeps : (a : Values) → Keeps Single (create_location a)
  unfolding create_location
  create_location-Keeps a = search (keeps_rules, insert_row-Keeps Model.session IsSingle) depth 40

  get_board_by_name-Keeps : (a : Value) → Keeps Single (get_board_by_name a)
  unfolding get_board_by_name
  get_board_by_name-Keeps a = search (keeps_rules, one-Keeps) depth 40

  missing_board-Keeps : {P : Tables → Type 0} (x : Exception) → Keeps P (missing_board x)
  missing_board-Keeps (Exception.board_not_found v) = pure-Keeps false
  missing_board-Keeps x = raise-Keeps x

  pub exists_by_name-Keeps : (a : Value) → Keeps Single (exists_by_name a)
  unfolding exists_by_name
  exists_by_name-Keeps a =
      search (keeps_rules, get_board_by_name-Keeps, missing_board-Keeps) depth 40

  pub destroy_board-Keeps : (i : Value) → Keeps Single (destroy_board i)
  unfolding destroy_board destroy_board_steps
  destroy_board-Keeps i = transaction-Keeps _ (
      bind-Keeps _ _ (lift-Keeps (add_identity_filter i)) (λ p.
        bind-Keeps _ _ (or_not_found-Keeps _ _ (one-Keeps Model.board p)) (λ b.
          bind-Keeps
            (λ w.
              delete_rows Model.location
                (add_location_filter_by_board w.tables (if is_uuid_like i then b Column.id else i))
                w)
            _
            (record {
              at = λ w h.
                  (delete_rows-Keeps Model.session IsSingle filter-IsSingle Model.location _).at w
                    h;
            })
            (λ _.
              bind-Keeps _ _
                (delete_rows-Keeps Model.session IsSingle filter-IsSingle Model.board p)
                (λ _. pure-Keeps tt)))))

  pub get_by-Keeps :
      {P : Tables → Type 0} (f g : Value → Action Row) (i : Value)
      → ((v : Value) → Keeps P (f v))
      → ((v : Value) → Keeps P (g v))
      → Keeps P (get_by f g i)
  unfolding get_by
  get_by-Keeps f g (Value.int z) kf kg = load-Keeps _ (kf (Value.int z))
  get_by-Keeps f g (Value.str s) kf kg = elim (Option-cases (E.int_like s)) [
    | inl e ↦
        rw (get_by, e)
          (if-Keeps (E.is_uuid_like s) _ _ (load-Keeps (g (Value.str s)) (kg (Value.str s)))
            (raise-Keeps (Exception.invalid_identity (Value.str s))))
    | inr (z, e) ↦ rw (get_by, e) (load-Keeps (f (Value.int z)) (kf (Value.int z)))
  ]
  get_by-Keeps f g Value.null kf kg = raise-Keeps _
  get_by-Keeps f g (Value.bool b) kf kg = raise-Keeps _
  get_by-Keeps f g (Value.dict d) kf kg = raise-Keeps _

  pub create_plugin_object-Keeps : (a : Object) → Keeps Single (create_plugin_object a)
  unfolding create_plugin_object create_plugin
  create_plugin_object-Keeps a =
      search (keeps_rules, create_row-Keeps Model.session IsSingle, load-Keeps) depth 40

  pub destroy_plugin_object-Keeps : (a : Object) → Keeps Single (destroy_plugin_object a)
  unfolding destroy_plugin_object destroy_plugin
  destroy_plugin_object-Keeps a =
      search (keeps_rules, destroy_row-Keeps Model.session IsSingle, filter-IsSingle) depth 40

  pub save_plugin-Keeps : (a : Object) → Keeps Single (save_plugin a)
  unfolding save_plugin update_plugin
  save_plugin-Keeps a = search (keeps_rules, update_row-Keeps Model.session IsSingle) depth 40

  pub create_injection_plugin_object-Keeps :
      (a : Object) → Keeps Single (create_injection_plugin_object a)
  unfolding create_injection_plugin_object create_injection_plugin
  create_injection_plugin_object-Keeps a =
      search (keeps_rules, create_row-Keeps Model.session IsSingle, load-Keeps) depth 40

  pub destroy_injection_plugin_object-Keeps :
      (a : Object) → Keeps Single (destroy_injection_plugin_object a)
  unfolding destroy_injection_plugin_object destroy_injection_plugin
  destroy_injection_plugin_object-Keeps a =
      search (keeps_rules, delete_rows-Keeps Model.session IsSingle, filter-IsSingle) depth 40

  pub save_injection_plugin-Keeps : (a : Object) → Keeps Single (save_injection_plugin a)
  unfolding save_injection_plugin update_injection_plugin
  save_injection_plugin-Keeps a =
      search (keeps_rules, update_row-Keeps Model.session IsSingle) depth 40

  pub create_service_object-Keeps : (a : Object) → Keeps Single (create_service_object a)
  unfolding create_service_object create_service
  create_service_object-Keeps a =
      search (keeps_rules, create_row-Keeps Model.session IsSingle, load-Keeps) depth 40

  pub destroy_service_object-Keeps : (a : Object) → Keeps Single (destroy_service_object a)
  unfolding destroy_service_object destroy_service
  destroy_service_object-Keeps a =
      search (keeps_rules, destroy_row-Keeps Model.session IsSingle, filter-IsSingle) depth 40

  pub save_service-Keeps : (a : Object) → Keeps Single (save_service a)
  unfolding save_service update_service
  save_service-Keeps a = search (keeps_rules, update_row-Keeps Model.session IsSingle) depth 40

  pub create_exposed_service_object-Keeps :
      (a : Object) → Keeps Single (create_exposed_service_object a)
  unfolding create_exposed_service_object create_exposed_service
  create_exposed_service_object-Keeps a =
      search (keeps_rules, create_row-Keeps Model.session IsSingle, load-Keeps) depth 40

  pub destroy_exposed_service_object-Keeps :
      (a : Object) → Keeps Single (destroy_exposed_service_object a)
  unfolding destroy_exposed_service_object destroy_exposed_service
  destroy_exposed_service_object-Keeps a =
      search (keeps_rules, delete_rows-Keeps Model.session IsSingle, filter-IsSingle) depth 40

  pub create_fleet_object-Keeps : (a : Object) → Keeps Single (create_fleet_object a)
  unfolding create_fleet_object create_fleet
  create_fleet_object-Keeps a =
      search (keeps_rules, create_row-Keeps Model.session IsSingle, load-Keeps) depth 40

  pub destroy_fleet_object-Keeps : (a : Object) → Keeps Single (destroy_fleet_object a)
  unfolding destroy_fleet_object destroy_fleet
  destroy_fleet_object-Keeps a =
      search (keeps_rules, destroy_row-Keeps Model.session IsSingle, filter-IsSingle) depth 40

  pub save_fleet-Keeps : (a : Object) → Keeps Single (save_fleet a)
  unfolding save_fleet update_fleet
  save_fleet-Keeps a = search (keeps_rules, update_row-Keeps Model.session IsSingle) depth 40

  pub get_injection_plugin-Keeps : (a : Value) (b : Value) → Keeps Single (get_injection_plugin a b)
  unfolding get_injection_plugin get_injection_plugin_by_uuids
  get_injection_plugin-Keeps a b = search (keeps_rules, one-Keeps, load-Keeps) depth 40
