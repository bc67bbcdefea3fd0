-- ===== src/Samples/Vifs.antt =====
-- The theorems about the numbers of network ports and about configurations, at concrete inputs.
use stack4things_openstack_i.Action.{ok}
use stack4things_openstack_i.Base.{
  List, String, [], arith, false, get_elem?, refl, some, suc, zero, ℕ, ◌==◌, ◌∷◌, ◌≡◌,
}
use stack4things_openstack_i.Conductor.Dns.{get_field}
use stack4things_openstack_i.Conductor.Provisioner.{
  conf_agent, conf_location, provisioner, then_conf,
}
use stack4things_openstack_i.Conductor.Provisioner.Documents.{
  agent_document, first_document, first_document_lem, placed_board,
}
use stack4things_openstack_i.Samples.Runs.{u1}
use stack4things_openstack_i.Db.Schema.{value_of}
use stack4things_openstack_i.Base.{String}
use stack4things_openstack_i.Conductor.Vifs.{vif_number, vif_values, free_tcp_port, tcp_port}
use stack4things_openstack_i.Conductor.Vifs.Naming.{vif_number-vif_values}
use stack4things_openstack_i.Conductor.Vifs.Drawing.{
  free_tcp_port_apart, free_tcp_port_clash, free_tcp_port_first,
}
use stack4things_openstack_i.Db.Schema.{Column, Fields, Row, Value}

-- Port holds 10005 and 10007
abbrev vif_ports : List ℕ
vif_ports = 10005 ∷ 10007 ∷ []

drawn_again : free_tcp_port 9 vif_ports 0 10005 (3 ∷ []) ≡ some (10003, [])
unfolding free_tcp_port
drawn_again = refl

free_tcp_port_apart_example : (10007 == 10003) ≡ false
free_tcp_port_apart_example =
    free_tcp_port_apart vif_ports 10003 [] 9 10005 (3 ∷ []) drawn_again 1 10007 (omega arith) refl

not_listed : (j p : ℕ) → get_elem? vif_ports j ≡ some p → (p == 10006) ≡ false
not_listed zero p e = let same : p ≡ 10005 = cc in rw same refl
not_listed (suc zero) p e = let same : p ≡ 10007 = cc in rw same refl
not_listed (suc (suc j)) p e = cc

free_tcp_port_first_example : free_tcp_port 3 vif_ports 0 10006 [] ≡ some (10006, [])
free_tcp_port_first_example = free_tcp_port_first vif_ports 10006 [] 3 (omega arith) not_listed

rest_differs : (j p : ℕ) → get_elem? (10007 ∷ []) j ≡ some p → (p == 10005) ≡ false
rest_differs zero p e = let same : p ≡ 10007 = cc in rw same refl
rest_differs (suc j) p e = cc

free_tcp_port_clash_example : free_tcp_port 4 vif_ports 0 10005 (5 ∷ []) ≡ some (10005, [])
unfolding tcp_port
free_tcp_port_clash_example =
    free_tcp_port_clash 10005 (10007 ∷ []) (5 ∷ []) 4 refl rest_differs (omega arith)

abbrev no_times : Row → String → Value
no_times r k = Value.null

abbrev new_board : Row
new_board Column.uuid = Value.str "u1"
new_board Column.config = Value.dict Fields.end
new_board c = Value.null

first_document_lem_example :
    then_conf
      (then_conf
        (then_conf
          (provisioner no_times new_board)
          (conf_agent "registration-agent" (Value.str "ws://a") (Value.str "s4t")))
        (conf_agent "main-agent" (Value.str "ws://b") (Value.str "s4t")))
      (conf_location no_times new_board)
    ≡ ok (
        first_document
          (placed_board no_times new_board new_board)
          (agent_document (Value.str "ws://a") (Value.str "s4t"))
          (agent_document (Value.str "ws://b") (Value.str "s4t")))
unfolding get_field
first_document_lem_example =
    first_document_lem no_times new_board new_board Fields.end (Value.str "ws://a")
      (Value.str "ws://b") (Value.str "s4t") refl refl

vif_number-vif_values_example :
    (name : String) × (value_of Column.vif_name (vif_values 10005 u1 u1 u1 u1 u1) ≡ Value.str name)
    × (vif_number name ≡ ok 10005)
vif_number-vif_values_example = vif_number-vif_values 10005 u1 u1 u1 u1 u1
