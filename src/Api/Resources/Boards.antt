-- ===== src/Api/Resources/Boards.antt =====
-- iotronic/api/controllers/v1/board.py: Board, whose representation asks for the session, the
-- locations and the address of the agent, which the module keeps; and the objects on a board.
use stack4things_openstack_i.Action.{Action, Result, catch, lift, ok, pure, raised, ◌>>=◌}
use stack4things_openstack_i.Api.Resources.{
  ApiObject, Attributes, Kind, attributes_of, restrict, self_links, unset_fields_except,
}
use stack4things_openstack_i.Api.Utils.{ApiConf}
use stack4things_openstack_i.Base.{
  Bool, List, Option, String, [], false, if◌then◌else◌, map, none, some, true, ◌∷◌,
}
use stack4things_openstack_i.Conductor.Dns.{url_host}
use stack4things_openstack_i.Db.Engine.{Engine}
use stack4things_openstack_i.Db.Filters.{filter_value}
use stack4things_openstack_i.Db.Schema.{Column, Fields, Row, Value, eq_value, set_column}
use stack4things_openstack_i.Db.Sessions.{get_session_by_board_uuid}
use stack4things_openstack_i.Objects.{Object, load, text_of}
use stack4things_openstack_i.Objects.Kinds.{list_locations}
use stack4things_openstack_i.Objects.Registry.{get_registration_agent, get_wampagent_object}

abbrev pub board_columns : List Column
board_columns =
    Column.uuid ∷ Column.code ∷ Column.status ∷ Column.name ∷ Column.type ∷ Column.agent
    ∷ Column.owner ∷ Column.project ∷ Column.fleet ∷ Column.lr_version ∷ Column.connectivity
    ∷ Column.mobile ∷ Column.config ∷ Column.extra ∷ []

-- Location leaves created_at out
unfoldable pub location_attributes : ApiConf → Row → Attributes
unfolding attributes_of unset_fields_except
location_attributes conf r =
    unset_fields_except ("updated_at" ∷ "longitude" ∷ "latitude" ∷ "altitude" ∷ [])
      (attributes_of conf (Column.longitude ∷ Column.latitude ∷ Column.altitude ∷ []) r)

abbrev host_of : Result String → Result String
host_of (ok s) = url_host s
host_of (raised e) = raised e

-- cache_agent_ip[agent]
unfoldable pub cached_ip : Value → List (Value × String) → Option String
unfolding eq_value
cached_ip agent [] = none
cached_ip agent ((a, ip) ∷ rest) = if eq_value agent a then some ip else cached_ip agent rest

-- board.config == {}
abbrev is_empty : Value → Bool
is_empty (Value.dict Fields.end) = true
is_empty v = false

-- the configuration of a board that has none
unfoldable pub ragent_config : Value → Value → Value
ragent_config code wsurl = Value.dict (
    Fields.field "iotronic"
      (Value.dict (
        Fields.field "board" (Value.dict (Fields.field "code" code Fields.end)) (
          Fields.field "wamp"
            (Value.dict (
              Fields.field "registration-agent"
                (Value.dict
                  (Fields.field "url" wsurl (Fields.field "realm" (Value.str "s4t") Fields.end)))
                Fields.end))
            Fields.end)))
      Fields.end)

-- try: m except Exception: default
abbrev or_default : {A : Type 0} → A → Action A → Action A
or_default a m = catch m (λ _. pure a)

-- cache_agent_ip[agent] = ip
unfoldable pub remember_ip : Value → String → Action String
remember_ip agent ip w = (ok ip, record w { agent_ips = (agent, ip) ∷ w.agent_ips })

module _ ⦃E : Engine⦄ (conf : ApiConf) where
  unfoldable pub agent_address : Value → Option String → Action String
  unfolding get_wampagent_object url_host text_of remember_ip
  agent_address agent (some ip) = pure ip
  agent_address agent none = do
    wagent ← get_wampagent_object agent
    ip ← lift (host_of (text_of (wagent.row Column.wsurl)))
    remember_ip agent ip

  -- if board.agent != None: board.wstun_ip = …; an agent that is Unset is not None, and is looked for
  -- in the database too, with the outcome of `unset_address`
  unfoldable pub wstun_ip : Option Value → Action Attributes
  unfolding agent_address cached_ip
  wstun_ip none = do ip ← lift conf.unset_address; pure (("wstun_ip", Value.str ip) ∷ [])
  wstun_ip (some Value.null) = pure []
  wstun_ip (some agent) = do
    ip ← (λ w. agent_address agent (cached_ip agent w.agent_ips) w)
    pure (("wstun_ip", Value.str ip) ∷ [])

  unfoldable pub session_of : Value → Action Value
  unfolding load get_session_by_board_uuid
  session_of uuid =
      or_default Value.null do
        session ← load (get_session_by_board_uuid uuid true)
        pure (session.row Column.session_id)

  unfoldable pub locations_of : Value → Action (List Attributes)
  unfolding list_locations location_attributes
  locations_of uuid =
      or_default [] do ls ← list_locations uuid; pure (map (λ l. location_attributes conf l.row) ls)

  -- a board without a configuration shows the first one
  unfoldable pub config_of : Row → Action Value
  unfolding get_registration_agent ragent_config
  config_of r =
      if is_empty (r Column.config)
      then (do
        ragent ← get_registration_agent
        pure (ragent_config (r Column.code) (ragent.row Column.wsurl)))
      else pure (r Column.config)

  unfoldable pub convert_board : Option (List String) → Object → Action ApiObject
  unfolding session_of locations_of config_of wstun_ip self_links attributes_of unset_fields_except
  convert_board fields o = do
    session ← session_of (o.row Column.uuid)
    locations ← locations_of (o.row Column.uuid)
    config ← config_of o.row
    let shown =
        restrict fields (attributes_of conf board_columns (set_column o.row Column.config config))
    ip ← wstun_ip (filter_value "agent" shown)
    pure (record {
      attributes = shown;
      extras = ("session", session) ∷ ip;
      locations = locations;
      links = self_links conf "boards" o.row;
    })

  unfoldable pub convert_boards : Option (List String) → List Object → Action (List ApiObject)
  unfolding convert_board
  convert_boards fields [] = pure []
  convert_boards fields (o ∷ os) = do
    b ← convert_board fields o
    bs ← convert_boards fields os
    pure (b ∷ bs)

-- BoardCollection goes by the same links
abbrev pub board_kind : Kind
board_kind = record { resource = "boards"; exposed = board_columns; linked = true }

-- the objects on a board, in board.py: a reference under its API name beside the fields
abbrev pub part : ApiConf → List Column → Attributes → Row → ApiObject
part conf cs extras r = record {
  attributes = attributes_of conf cs r;
  extras = extras;
  locations = [];
  links = [];
}

unfoldable pub injection_part : ApiConf → Object → ApiObject
unfolding attributes_of
injection_part conf o =
    part conf (Column.onboot ∷ Column.status ∷ []) (("plugin", o.row Column.plugin_uuid) ∷ []) o.row

unfoldable pub exposed_part : ApiConf → Object → ApiObject
unfolding attributes_of
exposed_part conf o =
    part conf (Column.public_port ∷ []) (("service", o.row Column.service_uuid) ∷ []) o.row

unfoldable pub network_port_part : ApiConf → Object → ApiObject
unfolding attributes_of
network_port_part conf o =
    part conf (Column.uuid ∷ Column.vif_name ∷ Column.network ∷ Column.mac_add ∷ Column.ip ∷ []) []
      o.row
