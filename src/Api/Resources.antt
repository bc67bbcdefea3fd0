-- ===== src/Api/Resources.antt =====
-- iotronic/api/controllers: the classes of the REST API and their links, in base.py and link.py and in
-- the module of each resource.
pub mod Boards
pub mod Laws
pub mod Kinds
pub mod Collections
use Prim.Native.Char.{code}
use Prim.Native.String.{String}
use stack4things_openstack_i.Action.{Exception, Result, ok, raised}
use stack4things_openstack_i.Api.Utils.{ApiConf, check_for_invalid_fields}
use stack4things_openstack_i.Base.{
  Bool, List, Option, [], any, concat, false, if◌then◌else◌, length, map, none, some, str_eq, true,
  ℕ, ◌++◌, ◌==◌, ◌∷◌,
}
use stack4things_openstack_i.Base.{decimal}
use stack4things_openstack_i.Db.Filters.{filter_value}
use stack4things_openstack_i.Db.Schema.{Column, Row, Value, same_column}
use stack4things_openstack_i.Objects.{Object}
use stack4things_openstack_i.Wamp.Sessions.Joining.{online}

-- the names of the columns as attributes
unfoldable pub column_name : Column → String
column_name Column.id = "id"
column_name Column.uuid = "uuid"
column_name Column.code = "code"
column_name Column.status = "status"
column_name Column.name = "name"
column_name Column.type = "type"
column_name Column.agent = "agent"
column_name Column.owner = "owner"
column_name Column.project = "project"
column_name Column.fleet = "fleet"
column_name Column.lr_version = "lr_version"
column_name Column.connectivity = "connectivity"
column_name Column.mobile = "mobile"
column_name Column.config = "config"
column_name Column.extra = "extra"
column_name Column.hostname = "hostname"
column_name Column.online = "online"
column_name Column.wsurl = "wsurl"
column_name Column.ragent = "ragent"
column_name Column.updated_at = "updated_at"
column_name Column.longitude = "longitude"
column_name Column.latitude = "latitude"
column_name Column.altitude = "altitude"
column_name Column.board_id = "board_id"
column_name Column.valid = "valid"
column_name Column.session_id = "session_id"
column_name Column.board_uuid = "board_uuid"
column_name Column.public = "public"
column_name Column.callable = "callable"
column_name Column.parameters = "parameters"
column_name Column.plugin_uuid = "plugin_uuid"
column_name Column.onboot = "onboot"
column_name Column.port = "port"
column_name Column.protocol = "protocol"
column_name Column.service_uuid = "service_uuid"
column_name Column.public_port = "public_port"
column_name Column.vif_name = "VIF_name"
column_name Column.mac_add = "MAC_add"
column_name Column.ip = "ip"
column_name Column.network = "network"
column_name Column.description = "description"
column_name Column.secure = "secure"
column_name Column.http_port = "http_port"
column_name Column.https_port = "https_port"
column_name Column.dns = "dns"
column_name Column.zone = "zone"
column_name Column.main_request_uuid = "main_request_uuid"
column_name Column.destination_uuid = "destination_uuid"
column_name Column.pending_requests = "pending_requests"
column_name Column.action = "action"
column_name Column.request_uuid = "request_uuid"
column_name Column.result = "result"
column_name Column.message = "message"

-- wsme fills an attribute that the body or the row leaves out with Unset: it is not in `attributes`.
abbrev pub Attributes : Type 0
Attributes = List (String × Value)

pub record Link : Type 0 where
  pub rel : String
  pub href : String

-- An object of the API: `attributes` are those that `self.fields` names, `extras` are set beside.
pub record ApiObject : Type 0 where
  pub attributes : Attributes
  pub extras : Attributes
  pub locations : List Attributes
  pub links : List Link

pub record Collection : Type 0 where
  pub items : List ApiObject
  pub next : Option String

-- a class of the API: the columns of the object that it has an attribute for
pub record Kind : Type 0 where
  pub resource : String
  pub exposed : List Column
  pub linked : Bool

-- resource_args.startswith('?')
unfoldable is_query : String → Bool
is_query String.[] = false
is_query (String.◌∷◌ c s) = code c == b'?'

unfoldable pub build_url : String → String → String → Bool → String
unfolding is_query
build_url url resource args bookmark = concat url (
    concat (if bookmark then "/" else "/v1/")
      (concat resource (if is_query args then args else concat "/" args)))

abbrev pub make_link : String → String → String → String → Bool → Link
make_link rel url resource args bookmark = record {
  rel = rel;
  href = build_url url resource args bookmark;
}

-- APIBase.unset_fields_except
unfoldable pub unset_fields_except : List String → Attributes → Attributes
unset_fields_except fields [] = []
unset_fields_except fields ((k, v) ∷ d) =
    if any (str_eq k) fields
    then (k, v) ∷ unset_fields_except fields d
    else unset_fields_except fields d

-- if fields is not None: unset_fields_except(fields)
abbrev pub restrict : Option (List String) → Attributes → Attributes
restrict none d = d
restrict (some fs) d = unset_fields_except fs d

-- Class(**rpc_object.as_dict()).as_dict()
unfoldable pub attributes_of : ApiConf → List Column → Row → Attributes
unfolding column_name
attributes_of conf cs r = conf.timestamps r ++ map (λ c. (column_name c, r c)) cs

-- '%s' of a uuid, which is a text or None
abbrev pub uuid_text : Value → String
uuid_text (Value.str s) = s
uuid_text v = "None"

unfoldable pub self_links : ApiConf → String → Row → List Link
unfolding build_url
self_links conf resource r =
    make_link "self" conf.public_url resource (uuid_text (r Column.uuid)) false
    ∷ make_link "bookmark" conf.public_url resource (uuid_text (r Column.uuid)) true
    ∷ []

abbrev links_of : ApiConf → Kind → Row → List Link
links_of conf kind r = if kind.linked then self_links conf kind.resource r else []

abbrev check_fields : Option (List String) → Attributes → Result (Unit {0})
check_fields none d = ok tt
check_fields (some fs) d = check_for_invalid_fields fs d

abbrev rendered : Result (Unit {0}) → ApiObject → Result ApiObject
rendered (ok u) o = ok o
rendered (raised e) o = raised e

-- the class methods convert_with_links and _convert_with_links
unfoldable pub convert_with_links :
    ApiConf → Kind → Option (List String) → Object → Result ApiObject
unfolding attributes_of self_links unset_fields_except check_for_invalid_fields
convert_with_links conf kind fields o =
    rendered (check_fields fields (attributes_of conf kind.exposed o.row)) (record {
      attributes = restrict fields (attributes_of conf kind.exposed o.row);
      extras = [];
      locations = [];
      links = links_of conf kind o.row;
    })

-- [convert(n) for n in objects]
abbrev keep_first : Result ApiObject → Result (List ApiObject) → Result (List ApiObject)
keep_first (ok o) (ok os) = ok (o ∷ os)
keep_first (ok o) (raised e) = raised e
keep_first (raised e) rest = raised e

unfoldable pub convert_all : (Object → Result ApiObject) → List Object → Result (List ApiObject)
convert_all f [] = ok []
convert_all f (o ∷ os) = keep_first (f o) (convert_all f os)
