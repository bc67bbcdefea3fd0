-- ===== src/Conductor/Vifs.antt =====
-- iotronic/conductor/endpoints.py: network ports on boards. The module's list Port is `vif_ports` of
-- the world.
pub mod Drawing
pub mod Naming
pub mod Keeping
use Prim.Native.Char.{Char, code}
use Prim.Native.String.{String}
use Prim.Native.Nat.{◌/◌}
use mathlib.Core.Option
use stack4things_openstack_i.Action.{
  Action, Exception, Result, call, catch, drop_draw, lift, ok, pure, raise, raised, ◌>>=◌, ◌>>◌,
}
use stack4things_openstack_i.Base.{
  decimal, List, Option, [], codes, concat, get_elem?, if◌then◌else◌, ltb, none, some, suc, zero, ℕ,
  ◌%◌, ◌+◌, ◌==◌, ◌∷◌,
}
use stack4things_openstack_i.Conductor.Dns.{subscript, text_at}
use stack4things_openstack_i.Conductor.Neutron.{add_port_to_network, delete_port, subnet_info}
use stack4things_openstack_i.Conductor.Requests.{execute_on_board}
use stack4things_openstack_i.Conductor.Version.{parse_int}
use stack4things_openstack_i.Conductor.Webservices.{shown}
use stack4things_openstack_i.Db.Boards.{get_board_by_uuid}
use stack4things_openstack_i.Db.Engine.{Engine}
use stack4things_openstack_i.Db.Schema.{Column, Value, Values}
use stack4things_openstack_i.Db.Services.{get_port_by_uuid}
use stack4things_openstack_i.Objects.{Object, is_online, load, new_object, text_of}
use stack4things_openstack_i.Objects.Kinds.{create_port_object, destroy_port_object}

-- cidr.split("/", 1)[1]
unfoldable after_slash : String → Result String
after_slash String.[] = raised Exception.index_error
after_slash (String.◌∷◌ c s) = let rest = after_slash s in if code c == b'/' then ok s else rest

-- s[n:]
unfoldable pub drop_chars : ℕ → String → String
drop_chars zero s = s
drop_chars (suc n) String.[] = String.[]
drop_chars (suc n) (String.◌∷◌ c s) = drop_chars n s

-- VIF_name = 'iotronic' + str(r_tcp_port)
unfoldable pub vif_name_of : ℕ → String
unfolding decimal
vif_name_of n = concat "iotronic" (decimal n)

-- int(VIF_name[8:])
unfoldable pub vif_number : String → Result ℕ
unfolding drop_chars parse_int
vif_number name = parse_int (codes (drop_chars 8 name))

-- Port.remove(n): `none` is the ValueError where it is not there
unfoldable pub take_off : ℕ → List ℕ → Option (List ℕ)
take_off n [] = none
take_off n (p ∷ ps) = if p == n then some ps else Option.map (λ qs. p ∷ qs) (take_off n ps)

-- random.randint(10000, 20000)
unfoldable pub tcp_port : List ℕ → ℕ
tcp_port [] = 10000
tcp_port (d ∷ ds) = 10000 + d % 10001

-- while i < len(Port): after a clash there is a new number, and i goes on from 1. `none` is a loop
-- that is still running when the fuel is gone.
unfoldable pub free_tcp_port : ℕ → List ℕ → ℕ → ℕ → List ℕ → Option (ℕ × List ℕ)
unfolding tcp_port
free_tcp_port zero ports i num draws = none
free_tcp_port (suc fuel) ports i num draws =
    let redrawn = free_tcp_port fuel ports 1 (tcp_port draws) (drop_draw draws) in
    let next = free_tcp_port fuel ports (i + 1) num draws in
    elim (get_elem? ports i) [
      | none ↦ some (num, draws)
      | some p ↦ if p == num then redrawn else next
    ]

-- What create_port_on_board comes to: a port, None, or a search for a number that goes on.
pub data Vif : Type 0 where
  attached : Object → Vif
  unattached : Vif
  searching : Vif

-- port['port'][k], and port['port']['fixed_ips'][0][k]
unfoldable port_part : Value → String → Result Value
unfolding subscript
port_part port k = elim (subscript port "port") [ ok body ↦ subscript body k | raised e ↦ raised e ]

unfoldable first_ip : Value → String → Result Value
unfolding port_part subscript
first_ip port k = elim (port_part port "fixed_ips") [
  | ok ips ↦ elim (subscript ips "0") [ ok ip ↦ subscript ip k | raised e ↦ raised e ]
  | raised e ↦ raised e
]

unfoldable pub vif_values : ℕ → Value → Value → Value → Value → Value → Values
unfolding vif_name_of
vif_values n uuid mac board_uuid network ip =
    (Column.ip, ip)
    ∷ (Column.network, network)
    ∷ (Column.board_uuid, board_uuid)
    ∷ (Column.mac_add, mac)
    ∷ (Column.uuid, uuid)
    ∷ (Column.vif_name, Value.str (vif_name_of n))
    ∷ []

-- Port.insert(0, n)
abbrev pub add_tcp_port : ℕ → Action (Unit {0})
add_tcp_port n w = (ok tt, record w { vif_ports = n ∷ w.vif_ports })

-- the first number drawn, and the loop
abbrev pub draw_tcp_port : ℕ → Action (Option ℕ)
draw_tcp_port fuel w =
    elim (free_tcp_port fuel w.vif_ports 0 (tcp_port w.draws) (drop_draw w.draws)) [
      | none ↦ (ok none, w)
      | some (n, ds) ↦ (ok (some n), record w { draws = ds })
    ]

module _ ⦃E : Engine⦄ where
  -- the device on the board, the tap on the agent, the row, and the configuration
  unfoldable pub attach : Object → Value → Value → String → ℕ → Action Vif
  unfolding execute_on_board port_part first_ip call new_object vif_values create_port_object
      decimal
  attach board board_uuid port slash n = do
    execute_on_board board_uuid "Create_VIF" (Value.str (decimal n) ∷ []) Value.null
    p ← lift (port_part port "id")
    call (record {
      server = board.row Column.agent;
      method = "create_tap_interface";
      args = p ∷ Value.str (decimal n) ∷ [];
    })
    mac ← lift (port_part port "mac_address")
    network ← lift (first_ip port "subnet_id")
    ip ← lift (first_ip port "ip_address")
    created ← create_port_object (new_object (vif_values n p mac board_uuid network ip))
    execute_on_board board_uuid "Configure_VIF" (created.row Column.uuid ∷ Value.str slash ∷ [])
        Value.null
    pure (attached created)

  -- the number is taken, unless the search for it goes on
  unfoldable pub attach_on : Object → Value → Value → String → Option ℕ → Action Vif
  unfolding attach
  attach_on board board_uuid port slash none = pure searching
  attach_on board board_uuid port slash (some n) = do
    add_tcp_port n
    attach board board_uuid port slash n

  unfoldable pub create_vif : ℕ → Object → Value → Value → Value → List Value → String → Action Vif
  unfolding add_port_to_network port_part free_tcp_port attach_on
  create_vif fuel board board_uuid network_uuid subnet_uuid security_groups slash = do
    port ← add_port_to_network board network_uuid subnet_uuid security_groups
    lift (port_part port "id")
    num ← draw_tcp_port fuel
    attach_on board board_uuid port slash num

  -- whatever goes wrong inside is logged, and the answer is None
  unfoldable pub create_port_on_board : ℕ → Value → Value → Value → List Value → Action Vif
  unfolding load get_board_by_uuid is_online subnet_info subscript text_at after_slash create_vif
  create_port_on_board fuel board_uuid network_uuid subnet_uuid security_groups = do
    board ← load (get_board_by_uuid board_uuid)
    (if is_online board
        then pure tt
        else raise (Exception.board_not_connected (board.row Column.uuid)))
    info ← subnet_info subnet_uuid
    subnet ← lift (subscript info "subnet")
    cidr ← lift (text_at subnet "cidr")
    slash ← lift (after_slash cidr)
    catch (create_vif fuel board board_uuid network_uuid subnet_uuid security_groups slash)
        (λ _. pure unattached)

  -- Port.remove(port_num), then Neutron, then the row
  unfoldable pub release_vif : Object → Value → ℕ → Action Vif
  unfolding take_off delete_port destroy_port_object
  release_vif port port_uuid n w = elim (take_off n w.vif_ports) [
    | none ↦ (raised Exception.value_error, w)
    | some ports ↦
        (do delete_port port_uuid; destroy_port_object port; pure (attached port))
          (record w { vif_ports = ports })
  ]

  unfoldable pub remove_vif_from_board : Value → Value → Action Vif
  unfolding load get_board_by_uuid get_port_by_uuid text_of execute_on_board vif_number release_vif
  remove_vif_from_board board_uuid port_uuid = do
    load (get_board_by_uuid board_uuid)
    port ← load (get_port_by_uuid port_uuid)
    name ← lift (text_of (shown (port.row Column.vif_name)))
    catch
        (do
          execute_on_board board_uuid "Remove_VIF" (Value.str name ∷ []) Value.null
          n ← lift (vif_number name)
          release_vif port port_uuid n)
        (λ _. pure unattached)
