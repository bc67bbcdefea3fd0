-- ===== src/Conductor/Vifs/Keeping.antt =====
-- Making and removing network ports on boards keeps at most one valid session of each board.
use stack4things_openstack_i.Action.{Action, Exception, drop_draw}
use stack4things_openstack_i.Action.Keeps.{
  Keeps, bind-Keeps, call-Keeps, keeps_rules, pure-Keeps, raise-Keeps,
}
use stack4things_openstack_i.Base.{
  List, Option, Option-cases, String, [], inl, inr, none, some, ℕ, ◌∷◌,
}
use stack4things_openstack_i.Conductor.Requests.Keeping.{execute_on_board-Keeps}
use stack4things_openstack_i.Conductor.Neutron.{
  add_port_to_network, client_failed, delete_port, subnet_info, verify_security_groups,
}
use stack4things_openstack_i.Conductor.Vifs.{
  Vif, add_tcp_port, attach, attach_on, create_port_on_board, create_vif, draw_tcp_port,
  free_tcp_port, release_vif, remove_vif_from_board, take_off, tcp_port,
}
use stack4things_openstack_i.Conductor.Webservices.Keeping.{ask-Keeps}
use stack4things_openstack_i.Db.Engine.{Engine}
use stack4things_openstack_i.Db.Keeping.{delete_rows-Keeps, insert_row-Keeps, one-Keeps}
use stack4things_openstack_i.Db.Schema.{Model, Tables, Value}
use stack4things_openstack_i.Db.Services.{create_port, destroy_port, get_port_by_uuid}
use stack4things_openstack_i.Objects.{Object}
use stack4things_openstack_i.Objects.Kinds.{create_port_object, destroy_port_object}
use stack4things_openstack_i.Wamp.Sessions.Keeping.{Single, get_board_by_uuid-Keeps, load-Keeps}
use stack4things_openstack_i.Wamp.Sessions.Single.{IsSingle, filter-IsSingle}

module _ ⦃E : Engine⦄ where
  client_failed-Keeps :
      {P : Tables → Type 0} {A : Type 0} (m : Action A) (x : Exception)
      → Keeps P m
      → Keeps P (client_failed m x)
  client_failed-Keeps m Exception.neutron_client_exception km = km
  client_failed-Keeps m x km = raise-Keeps x

  subnet_info-Keeps : (a : Value) → Keeps Single (subnet_info a)
  unfolding subnet_info
  subnet_info-Keeps a = search (keeps_rules, ask-Keeps) depth 40

  verify_security_groups-Keeps : (gs : List Value) → Keeps Single (verify_security_groups gs)
  unfolding verify_security_groups
  verify_security_groups-Keeps [] = pure-Keeps tt
  verify_security_groups-Keeps (g ∷ gs) =
      search (keeps_rules, ask-Keeps, client_failed-Keeps) depth 40

  add_port_to_network-Keeps :
      (a : Object) (b : Value) (c : Value) (d : List Value)
      → Keeps Single (add_port_to_network a b c d)
  unfolding add_port_to_network
  add_port_to_network-Keeps a b c d =
      search (keeps_rules, verify_security_groups-Keeps, ask-Keeps, client_failed-Keeps) depth 40

  delete_port-Keeps : (a : Value) → Keeps Single (delete_port a)
  unfolding delete_port
  delete_port-Keeps a = search (keeps_rules, ask-Keeps, client_failed-Keeps) depth 40

  create_port_object-Keeps : (a : Object) → Keeps Single (create_port_object a)
  unfolding create_port_object create_port
  create_port_object-Keeps a =
      search (keeps_rules, insert_row-Keeps Model.session IsSingle, load-Keeps) depth 40

  destroy_port_object-Keeps : (a : Object) → Keeps Single (destroy_port_object a)
  unfolding destroy_port_object destroy_port
  destroy_port_object-Keeps a =
      search (keeps_rules, delete_rows-Keeps Model.session IsSingle, filter-IsSingle) depth 40

  draw_tcp_port-Keeps : (fuel : ℕ) → Keeps Single (draw_tcp_port fuel)
  draw_tcp_port-Keeps fuel = record {
    at = λ w h.
        elim (Option-cases
          (free_tcp_port fuel w.vif_ports 0 (tcp_port w.draws) (drop_draw w.draws))) [
            | inl e ↦ rw (draw_tcp_port, e) h
            | inr (p, e) ↦ rw (draw_tcp_port, e) h
          ];
  }

  add_tcp_port-Keeps : (n : ℕ) → Keeps Single (add_tcp_port n)
  add_tcp_port-Keeps n = record { at = λ w h. h }

  attach-Keeps :
      (a : Object) (b : Value) (c : Value) (d : String) (e : ℕ) → Keeps Single (attach a b c d e)
  unfolding attach
  attach-Keeps a b c d e =
      search (keeps_rules, execute_on_board-Keeps, call-Keeps, create_port_object-Keeps) depth 40

  attach_on-Keeps :
      (b : Object) (u p : Value) (s : String) (num : Option ℕ)
      → Keeps Single (attach_on b u p s num)
  unfolding attach_on
  attach_on-Keeps b u p s none = pure-Keeps Vif.searching
  attach_on-Keeps b u p s (some n) =
      bind-Keeps (add_tcp_port n) _ (add_tcp_port-Keeps n) (λ _. attach-Keeps b u p s n)

  create_vif-Keeps :
      (a : ℕ) (b : Object) (c : Value) (d : Value) (e : Value) (f : List Value) (g : String)
      → Keeps Single (create_vif a b c d e f g)
  unfolding create_vif
  create_vif-Keeps a b c d e f g =
      search (keeps_rules, add_port_to_network-Keeps, draw_tcp_port-Keeps, attach_on-Keeps) depth 40

  pub create_port_on_board-Keeps :
      (a : ℕ) (b : Value) (c : Value) (d : Value) (e : List Value)
      → Keeps Single (create_port_on_board a b c d e)
  unfolding create_port_on_board
  create_port_on_board-Keeps a b c d e =
      search (keeps_rules, load-Keeps, get_board_by_uuid-Keeps, subnet_info-Keeps, create_vif-Keeps)
        depth 40

  release_vif-Keeps : (o : Object) (v : Value) (n : ℕ) → Keeps Single (release_vif o v n)
  unfolding release_vif
  release_vif-Keeps o v n = record {
    at = λ w h. elim (Option-cases (take_off n w.vif_ports)) [
      | inl e ↦ rw (release_vif, e) h
      | inr (ps, e) ↦
          rw (release_vif, e)
            ((bind-Keeps (delete_port v) _ (delete_port-Keeps v) (λ _.
                bind-Keeps (destroy_port_object o) _ (destroy_port_object-Keeps o)
                  (λ _. pure-Keeps (Vif.attached o)))).at
              (record w { vif_ports = ps }) h)
    ];
  }

  pub remove_vif_from_board-Keeps :
      (a : Value) (b : Value) → Keeps Single (remove_vif_from_board a b)
  unfolding remove_vif_from_board get_port_by_uuid
  remove_vif_from_board-Keeps a b =
      search
        (
          keeps_rules, load-Keeps, one-Keeps, get_board_by_uuid-Keeps, execute_on_board-Keeps,
          release_vif-Keeps,
        )
        depth 40
