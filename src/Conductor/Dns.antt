-- ===== src/Conductor/Dns.antt =====
-- iotronic/common/designate.py, and the functions of iotronic/conductor/endpoints.py that make the
-- DNS records of web services. The client of Designate and the resolver are other services: what
-- they are asked, and what they answer, goes by `ask`.
use Prim.Native.Char.{code}
use Prim.Native.String.{String}
use stack4things_openstack_i.Action.{
  Action, Call, Exception, Result, ask, catch, lift, ok, pure, raise, raised, ◌>>=◌, ◌>>◌,
}
use stack4things_openstack_i.Base.{
  List, Option, [], concat, if◌then◌else◌, none, some, str_eq, ◌&&◌, ◌==◌, ◌∷◌,
}
use stack4things_openstack_i.Db.Agents.{get_wampagent}
use stack4things_openstack_i.Db.Engine.{Engine}
use stack4things_openstack_i.Db.Schema.{Column, Fields, Value, truthy}
use stack4things_openstack_i.Objects.{Object, load, text_of}

-- the first entry with this key
unfoldable pub get_field : String → Fields → Option Value
get_field k Fields.end = none
get_field k (Fields.field j v fs) = if str_eq j k then some v else get_field k fs

-- d[k]
unfoldable pub subscript : Value → String → Result Value
unfolding get_field
subscript (Value.dict fs) k = elim (get_field k fs) [
  | some v ↦ ok v
  | none ↦ raised Exception.key_error
]
subscript v k = raised Exception.type_error

-- d[k] where a text is wanted
unfoldable pub text_at : Value → String → Result String
unfolding subscript text_of
text_at v k = elim (subscript v k) [ ok u ↦ text_of u | raised e ↦ raised e ]

-- url.split("//")[1].split(":")[0]
unfoldable after_slashes : String → Option String
after_slashes String.[] = none
after_slashes (String.◌∷◌ c String.[]) = none
after_slashes (String.◌∷◌ c (String.◌∷◌ d s)) =
    let rest = after_slashes (String.◌∷◌ d s) in
    if code c == b'/' && code d == b'/' then some s else rest

unfoldable before_slashes : String → String
before_slashes String.[] = String.[]
before_slashes (String.◌∷◌ c String.[]) = String.◌∷◌ c String.[]
before_slashes (String.◌∷◌ c (String.◌∷◌ d s)) =
    let rest = before_slashes (String.◌∷◌ d s) in
    if code c == b'/' && code d == b'/' then String.[] else String.◌∷◌ c rest

unfoldable before_colon : String → String
before_colon String.[] = String.[]
before_colon (String.◌∷◌ c s) =
    let rest = before_colon s in if code c == b':' then String.[] else String.◌∷◌ c rest

unfoldable pub url_host : String → Result String
unfolding after_slashes before_slashes before_colon
url_host url = elim (after_slashes url) [
  | none ↦ raised Exception.index_error
  | some s ↦ ok (before_colon (before_slashes s))
]

-- a + "." + b
abbrev pub dotted : String → String → String
dotted a b = concat a (concat "." b)

abbrev designate : String → List Value → Call
designate method args = record { server = Value.str "designate"; method = method; args = args }

-- zones.get(zone_name + ".")
unfoldable pub zone_of : Value → Action Value
unfolding text_of ask
zone_of zone_name = do
  zone ← lift (text_of zone_name)
  ask (designate "zones.get" (Value.str (concat zone ".") ∷ []))

-- recordsets.get(zone["id"], name + "." + zone["name"])
unfoldable pub get_record : Value → Value → Action Value
unfolding ask subscript text_at text_of
get_record zone name = do
  zone_id ← lift (subscript zone "id")
  record_name ← lift (text_of name)
  zone_name ← lift (text_at zone "name")
  ask (designate "recordsets.get" (zone_id ∷ Value.str (dotted record_name zone_name) ∷ []))

-- create_record: nothing is made where the record is there
unfoldable pub create_record : Value → Value → Value → Action (Unit {0})
unfolding zone_of get_record subscript ask truthy
create_record name ip zone_name = do
  zone ← zone_of zone_name
  record_found ← catch (get_record zone name) (λ _. pure Value.null)
  (if truthy record_found then pure tt else (do
    zone_id ← lift (subscript zone "id")
    ask (designate "recordsets.create" (zone_id ∷ name ∷ Value.str "A" ∷ ip ∷ []))
    pure tt))

-- delete_record: where the lookup fails, `record` was never bound
unfoldable pub delete_record : Value → Value → Action (Unit {0})
unfolding zone_of get_record subscript text_at text_of ask truthy
delete_record name zone_name = do
  zone ← zone_of zone_name
  record_found ← catch (get_record zone name) (λ _. raise Exception.unbound_local_error)
  (if truthy record_found
      then (do
        zone_id ← lift (subscript zone "id")
        record_name ← lift (text_of name)
        zone_text ← lift (text_at zone "name")
        ask (
            designate "recordsets.delete" (zone_id ∷ Value.str (dotted record_name zone_text) ∷ []))
        pure tt)
      else pure tt)

module _ ⦃E : Engine⦄ where
  -- the address of the agent's host, asked of the resolver
  unfoldable pub agent_ip : Object → Action Value
  unfolding load get_wampagent text_of url_host ask
  agent_ip board = do
    agent ← load (get_wampagent (board.row Column.agent))
    wsurl ← lift (text_of (agent.row Column.wsurl))
    host ← lift (url_host wsurl)
    ask (record {
      server = Value.str "resolver";
      method = "gethostbyname";
      args = Value.str host ∷ [];
    })

  unfoldable pub create_record_dns : Object → String → String → Action (Unit {0})
  unfolding agent_ip create_record
  create_record_dns board board_dns zone = do
    ip ← agent_ip board
    create_record (Value.str board_dns) ip (Value.str zone)

  unfoldable pub create_record_dns_webservice :
      Object → String → String → String → Action (Unit {0})
  unfolding agent_ip create_record
  create_record_dns_webservice board webs_name board_dns zone = do
    ip ← agent_ip board
    create_record (Value.str (dotted webs_name board_dns)) ip (Value.str zone)
