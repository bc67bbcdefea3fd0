-- ===== src/Samples/Services.antt =====
-- The theorems about ports, versions, the registry, the allow list and the hash ring, at runs.
use stack4things_openstack_i.Common.HashRing.Placing.{IsNext, get_partition-IsNext}
use stack4things_openstack_i.Samples.Memory.{memory}
use stack4things_openstack_i.Common.HashRing.{hosts_are}
use stack4things_openstack_i.Action.{World, ok}
use stack4things_openstack_i.Base.{
  List, Option, String, [], any, arith, codes, filter, pos, refl, some, suc, true, zero, ℕ, ◌+◌,
  ◌<◌, ◌∷◌, ◌≡◌,
}
use stack4things_openstack_i.Common.HashRing.{
  HashRing, bisect, collect, get_host, get_hosts, get_partition, insert_sorted, is_in, lookup,
  make_ring, next_partition, probe, put, relevant,
}
use stack4things_openstack_i.Common.HashRing.Mapping.{IsMapping, get_hosts-IsMapping}
use stack4things_openstack_i.Common.HashRing.Ending.{IsBalanced, IsFilled, get_hosts_total}
use stack4things_openstack_i.Conductor.Ports.{
  PortConfig, full_list, is_exposed, random_public_port, range, range_from, unexposed,
  webservice_ports,
}
use stack4things_openstack_i.Conductor.Ports.Allocation.{
  Allocated, random_public_port_fresh, webservice_ports_same,
}
use stack4things_openstack_i.Db.Schema.{Column, Model, Row, Value, Values, assign, set_rows}
use stack4things_openstack_i.Samples.Runs.{no_rows, null_row, world_of}
use stack4things_openstack_i.Wamp.AllowList.{
  Node, addin_allowlist, is_listed, remove_from_allowlist,
}
use stack4things_openstack_i.Wamp.AllowList.Entries.{remove_from_allowlist-addin_allowlist}

-- the ports 50001 and 50002
abbrev pub two_ports : PortConfig
two_ports = record { service_port_min = 50000; service_port_max = 50004 }

abbrev one_port : PortConfig
one_port = record { service_port_min = 50000; service_port_max = 50003 }

abbrev pub exposed_row : Row
exposed_row =
    assign ((Column.id, Value.int (pos 0)) ∷ (Column.public_port, Value.int (pos 50001)) ∷ [])
      null_row

abbrev exposed_world : World
exposed_world = world_of (set_rows no_rows Model.exposed_service (exposed_row ∷ []))

random_public_port_fresh_example :
    (o : Option ℕ) × (v : World) × (random_public_port two_ports exposed_world ≡ (ok o, v))
    × Allocated two_ports exposed_world o v
    × (v.tables ≡ exposed_world.tables)
random_public_port_fresh_example =
    random_public_port_fresh two_ports exposed_world (record { free = tt; distinct = tt })

abbrev last_port : World
last_port = record (world_of no_rows) { free_ports = 50001 ∷ []; draws = 0 ∷ 0 ∷ [] }

webservice_ports_same_example : (webservice_ports one_port last_port).0 ≡ ok (some (50001, 50001))
unfolding unexposed full_list range range_from is_exposed filter any
webservice_ports_same_example = webservice_ports_same one_port last_port 50000 0 0 [] refl refl refl

abbrev conductor_row : Row
conductor_row =
    assign
      ((Column.id, Value.int (pos 0))
        ∷ (Column.hostname, Value.str "h")
        ∷ (Column.online, Value.bool true)
        ∷ [])
      null_row

abbrev one_conductor : World
one_conductor = world_of (set_rows no_rows Model.conductor (conductor_row ∷ []))

abbrev joining : Values
joining = (Column.hostname, Value.str "h") ∷ []

abbrev tunnel : Node
tunnel = record { client = "c1"; port = "50001" }

remove_from_allowlist-addin_allowlist_example :
    (addin_allowlist tunnel (some []) ≡ some (tunnel ∷ []))
    × (remove_from_allowlist tunnel (addin_allowlist tunnel (some [])) ≡ some [])
unfolding is_listed any
remove_from_allowlist-addin_allowlist_example = remove_from_allowlist-addin_allowlist tunnel [] refl

-- a digest that adds up the code points
total : List ℕ → ℕ
total [] = 0
total (c ∷ cs) = c + total cs

abbrev digest : String → ℕ
digest s = total (codes s)

-- the hosts a and b, with one partition each, at 194 and 196
abbrev ring_ab : HashRing
ring_ab = record {
  hosts = "a" ∷ "b" ∷ [];
  replicas = 2;
  host_hashes = (194, "a") ∷ (196, "b") ∷ [];
  partitions = 194 ∷ 196 ∷ [];
}

make_ring_ab : make_ring digest 0 ("a" ∷ "b" ∷ []) 2 ≡ ring_ab
unfolding make_ring total put insert_sorted is_in any
make_ring_ab = refl

ring_ab-IsBalanced : IsBalanced ring_ab
unfolding is_in any get_host lookup
ring_ab-IsBalanced = record {
  distinct = (refl, (refl, tt));
  served = serve;
  covered = ((0, (omega arith), refl), ((1, (omega arith), refl), tt));
}
  where
    serve :
        (p : ℕ)
        → p < 2
        → (h : String) × (get_host ring_ab p ≡ some h) × (is_in h ring_ab.hosts ≡ true)
    serve zero lt = ("a", refl, refl)
    serve (suc zero) lt = ("b", refl, refl)
    serve (suc (suc p)) lt = absurd (omega (arith, lt))

get_hosts_total_example :
    (hs : List String) × (get_hosts digest ring_ab "x" ("a" ∷ []) ≡ hosts_are hs)
    × IsFilled ring_ab (relevant digest ring_ab ("a" ∷ [])) hs 2
get_hosts_total_example = get_hosts_total digest ring_ab "x" ("a" ∷ []) ring_ab-IsBalanced

get_hosts-IsMapping_example : IsMapping ring_ab (relevant digest ring_ab ("a" ∷ [])) ("b" ∷ []) 2
unfolding get_hosts relevant get_partition total bisect collect probe get_host lookup is_in any
    next_partition filter
get_hosts-IsMapping_example = get_hosts-IsMapping digest ring_ab "x" ("a" ∷ []) ("b" ∷ []) refl

get_partition-IsNext_example :
    IsNext
      (make_ring digest 0 ("a" ∷ "b" ∷ []) 2).partitions
      (digest "x")
      (get_partition digest (make_ring digest 0 ("a" ∷ "b" ∷ []) 2) "x")
get_partition-IsNext_example = get_partition-IsNext digest 0 2 ("a" ∷ "b" ∷ []) "x"
