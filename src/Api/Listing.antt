-- ===== src/Api/Listing.antt =====
-- iotronic/api/controllers/v1: what the listings of all resources share.
pub mod Pages
use stack4things_openstack_i.Conductor.RpcApi.Messages.{Message}
use stack4things_openstack_i.Action.{
  Action, Exception, Result, lift, ok, pure, raise, raised, ◌>>=◌, ◌>>◌,
}
use stack4things_openstack_i.Api.Resources.{
  ApiObject, Collection, Kind, convert_all, convert_with_links,
}
use stack4things_openstack_i.Api.Resources.Collections.{make_collection}
use stack4things_openstack_i.Api.Resources.Boards.{board_kind, convert_board, convert_boards}
use stack4things_openstack_i.Api.Utils.{ApiConf, Context, validate_limit, validate_sort_dir}
use stack4things_openstack_i.Base.{
  List, Option, String, any, if◌then◌else◌, map, negsuc, none, pos, some, str_eq, ℕ, ℤ,
}
use stack4things_openstack_i.Common.Policy.{Credentials, Enforcer, authorize, set_item}
use stack4things_openstack_i.Conductor.RpcApi.{Returned, dispatch}
use stack4things_openstack_i.Conductor.Webservices.{entity}
use stack4things_openstack_i.Db.Engine.{Engine, Page}
use stack4things_openstack_i.Db.Schema.{Column, Row, Value}
use stack4things_openstack_i.Objects.{Object, load}

-- the arguments of a listing; sort_key is 'id' and sort_dir 'asc' where the request has none
pub record Query : Type 0 where
  pub marker : Option String
  pub limit : Option ℤ
  pub sort_key : String
  pub sort_dir : String
  pub fields : Option (List String)

-- What a handler of the API answers.
pub data Answered : Type 0 where
  no_content : Answered
  shown : ApiObject → Answered
  listed : Collection → Answered
  returned : Returned → Answered

-- if fields is None: fields = the default ones
abbrev pub fields_or : List String → Option (List String) → Option (List String)
fields_or ds none = some ds
fields_or ds (some fs) = some fs

-- A reply of the conductor that is used as an object: what is none has no as_dict.
unfoldable pub as_object : Returned → Result Object
as_object (Returned.object o) = ok o
as_object (Returned.response (entity o)) = ok o
as_object r = raised Exception.attribute_error

-- A limit that no one checks goes to the database, which refuses a negative one.
unfoldable pub unchecked_limit : Option ℤ → Action (Option ℕ)
unchecked_limit none = pure none
unchecked_limit (some (pos n)) = pure (some n)
unchecked_limit (some (negsuc n)) = raise Exception.db_error

-- A marker that is a text where the pagination wants an object has none of its attributes.
unfoldable pub no_marker : Option String → Action (Unit {0})
no_marker none = pure tt
no_marker (some m) = raise Exception.attribute_error

module _ ⦃E : Engine⦄ (conf : ApiConf) where
  -- if marker: Class.get_by_uuid(marker)
  unfoldable pub find_marker : (Value → Action Row) → Option String → Action (Option Value)
  unfolding load
  find_marker by_uuid none = pure none
  find_marker by_uuid (some m) =
      if str_eq m ""
      then pure none
      else (do o ← load (by_uuid (Value.str m)); pure (some (o.row Column.id)))

  -- the checks of the _get_…_collection methods, up to the filters
  unfoldable pub get_page : (Value → Action Row) → List String → Query → Action Page
  unfolding validate_limit validate_sort_dir find_marker any
  get_page by_uuid invalid_sort_key_list q = do
    limit ← lift (validate_limit conf.max_limit q.limit)
    sort_dir ← lift (validate_sort_dir q.sort_dir)
    marker ← find_marker by_uuid q.marker
    (if any (str_eq q.sort_key) invalid_sort_key_list
        then raise Exception.invalid_parameter_value
        else pure (record {
          limit = some limit;
          marker = marker;
          sort_key = some q.sort_key;
          sort_dir = some sort_dir;
        }))

  -- return XCollection.convert_with_links(objects, limit, fields=fields, …)
  unfoldable pub show_list :
      Kind → Option (List String) → Option ℕ → String → String → List Object → Action Answered
  unfolding convert_all convert_with_links make_collection
  show_list kind fields limit sort_key sort_dir os = do
    items ← lift (convert_all (convert_with_links conf kind fields) os)
    page ← lift (make_collection conf kind limit sort_key sort_dir items)
    pure (Answered.listed page)

  unfoldable pub show_boards :
      Option (List String) → Option ℕ → String → String → List Object → Action Answered
  unfolding convert_boards make_collection
  show_boards fields limit sort_key sort_dir os = do
    items ← convert_boards conf fields os
    page ← lift (make_collection conf board_kind limit sort_key sort_dir items)
    pure (Answered.listed page)

  -- return X.convert_with_links(rpc_object, fields=fields)
  unfoldable pub show : Kind → Option (List String) → Object → Action Answered
  unfolding convert_with_links
  show kind fields o = do x ← lift (convert_with_links conf kind fields o); pure (Answered.shown x)

  unfoldable pub show_board : Option (List String) → Object → Action Answered
  unfolding convert_board
  show_board fields o = do x ← convert_board conf fields o; pure (Answered.shown x)

  -- the collections of the objects on a board have no next page
  abbrev pub show_parts : (Object → ApiObject) → List Object → Action Answered
  show_parts f os = pure (Answered.listed (record { items = map f os; next = none }))

  -- pecan.request.rpcapi.…
  unfoldable pub rpc : Message → Action Returned
  unfolding dispatch
  rpc m = dispatch conf.conductor m

  -- an update or a creation: the conductor's object is shown
  unfoldable pub rpc_show : Kind → Message → Action Answered
  unfolding rpc as_object show
  rpc_show kind m = do r ← rpc m; o ← lift (as_object r); show kind none o

  unfoldable pub rpc_return : Message → Action Answered
  unfolding rpc
  rpc_return m = do r ← rpc m; pure (Answered.returned r)

  unfoldable pub rpc_silent : Message → Action Answered
  unfolding rpc
  rpc_silent m = do rpc m; pure Answered.no_content

module _ ⦃F : Enforcer⦄ where
  -- policy.authorize(rule, cdict, cdict)
  unfoldable pub allow : String → Credentials → Action (Unit {0})
  unfolding authorize
  allow name c = lift (authorize name c c)

  -- cdict['owner'] = owner
  unfoldable pub allow_owner : String → Context → Value → Action (Unit {0})
  unfolding allow set_item
  allow_owner name ctx owner = allow name (set_item ctx.policy_values "owner" owner)
