-- ===== src/Conductor/Neutron.antt =====
-- iotronic/common/neutron.py: the functions that the conductor calls. The client of Neutron is another
-- service; its answers go by `ask`.
use Prim.Native.String.{String}
use stack4things_openstack_i.Action.{
  Action, Call, Exception, Result, ask, catch, lift, ok, pure, raise, raised, ◌>>=◌, ◌>>◌,
}
use stack4things_openstack_i.Base.{
  Bool, List, [], any, false, if◌then◌else◌, none, not, some, true, ◌||◌, ◌∷◌,
}
use stack4things_openstack_i.Conductor.Dns.{get_field, subscript}
use stack4things_openstack_i.Db.Schema.{Column, Fields, Value, eq_value}
use stack4things_openstack_i.Objects.{Object}

abbrev pub neutron : String → List Value → Call
neutron method args = record { server = Value.str "neutron"; method = method; args = args }

-- subnet_info: None where the client raises
unfoldable pub subnet_info : Value → Action Value
unfolding ask
subnet_info subnet_uuid =
    catch (ask (neutron "show_subnet" (subnet_uuid ∷ []))) (λ _. pure Value.null)

-- except NeutronClientException
abbrev pub client_failed : {A : Type 0} → Action A → Exception → Action A
client_failed m Exception.neutron_client_exception = m
client_failed m e = raise e

-- whether one of the security groups is not among those that Neutron has
unfoldable pub missing_groups : List Value → List Value → Bool
unfolding any eq_value
missing_groups [] existing = false
missing_groups (g ∷ gs) existing = not (any (eq_value g) existing) || missing_groups gs existing

-- the values of a JSON list, which is read as the document of its elements by position
unfoldable pub elements : Fields → List Value
elements Fields.end = []
elements (Fields.field k v fs) = v ∷ elements fs

unfoldable pub ids_of : List Value → Result (List Value)
unfolding subscript
ids_of [] = ok []
ids_of (v ∷ vs) = elim (subscript v "id") [
  | ok i ↦ elim (ids_of vs) [ ok is ↦ ok (i ∷ is) | raised e ↦ raised e ]
  | raised e ↦ raised e
]

-- reply.get('security_groups', [])
unfoldable pub groups_in : Value → Result (List Value)
unfolding get_field elements
groups_in (Value.dict fs) = elim (get_field "security_groups" fs) [
  | some (Value.dict gs) ↦ ok (elements gs)
  | some v ↦ raised Exception.type_error
  | none ↦ ok []
]
groups_in v = raised Exception.attribute_error

unfoldable pub verify_security_groups : List Value → Action (Unit {0})
unfolding ask groups_in ids_of missing_groups
verify_security_groups [] = pure tt
verify_security_groups (g ∷ gs) = do
  groups ← (do
    reply ←
        catch (ask (neutron "list_security_groups" []))
          (client_failed (raise Exception.network_error))
    lift (groups_in reply))
  existing ← lift (ids_of groups)
  (if missing_groups (g ∷ gs) existing then raise Exception.network_error else pure tt)

-- the body of the port, as the arguments of the call; None where Neutron refuses
unfoldable pub add_port_to_network : Object → Value → Value → List Value → Action Value
unfolding verify_security_groups ask
add_port_to_network board network_uuid subnet_uuid security_groups = do
  verify_security_groups security_groups
  catch
      (ask (
        neutron "create_port" (
          network_uuid
          ∷ board.row Column.project
          ∷ board.row Column.uuid
          ∷ Value.bool true
          ∷ Value.str "iot:board"
          ∷ board.row Column.agent
          ∷ subnet_uuid
          ∷ security_groups)))
      (client_failed (pure Value.null))

-- delete_port gives 1 or 0, which the caller does not read
unfoldable pub delete_port : Value → Action (Unit {0})
unfolding ask
delete_port port_uuid =
    catch (do ask (neutron "delete_port" (port_uuid ∷ [])); pure tt) (client_failed (pure tt))
