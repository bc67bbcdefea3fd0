-- ===== src/Api/Resources/Collections.antt =====
-- iotronic/api/controllers/v1/collection.py: the page of a listing, and the link to the next one.
use stack4things_openstack_i.Api.Resources.{ApiObject, Collection, Kind, uuid_text, build_url}
use Prim.Native.String.{String}
use stack4things_openstack_i.Action.{Exception, Result, ok, raised}
use stack4things_openstack_i.Api.Utils.{ApiConf}
use stack4things_openstack_i.Base.{
  Bool, List, Option, [], any, concat, false, if◌then◌else◌, length, none, some, ℕ, ◌==◌, ◌∷◌,
}
use stack4things_openstack_i.Base.{decimal}
use stack4things_openstack_i.Db.Filters.{filter_value}
use stack4things_openstack_i.Db.Schema.{Column, Value, same_column}

-- Collection.has_next
unfoldable pub has_next : List ApiObject → Option ℕ → Bool
has_next os none = false
has_next [] (some n) = false
has_next (o ∷ os) (some n) = length (o ∷ os) == n

-- self.collection[-1].uuid: classes without a uuid have no such attribute
abbrev last_of : ApiObject → List ApiObject → ApiObject
last_of o [] = o
last_of o (p ∷ os) = last_of p os

-- '%s' of an attribute, which may be Unset
abbrev marker_text : ApiConf → Option Value → String
marker_text conf none = conf.unset_text
marker_text conf (some v) = uuid_text v

-- next_args
unfoldable next_args : ApiConf → String → String → ℕ → Option Value → String
unfolding decimal
next_args conf sort_key sort_dir limit uuid = concat "?sort_key=" (
    concat sort_key (
      concat "&sort_dir=" (
        concat sort_dir
          (concat "&limit=" (concat (decimal limit) (concat "&marker=" (marker_text conf uuid)))))))

abbrev has_uuid : Kind → Bool
has_uuid kind = any (same_column Column.uuid) kind.exposed

-- Collection.get_next
unfoldable pub get_next :
    ApiConf → Kind → List ApiObject → Option ℕ → String → String → Result (Option String)
unfolding next_args build_url has_next any
get_next conf kind [] limit sort_key sort_dir = ok none
get_next conf kind os none sort_key sort_dir = ok none
get_next conf kind (o ∷ os) (some n) sort_key sort_dir =
    if has_next (o ∷ os) (some n)
    then if has_uuid kind
      then ok (
          some (
            build_url conf.public_url kind.resource
              (next_args conf sort_key sort_dir n (filter_value "uuid" (last_of o os).attributes))
              false))
      else raised Exception.attribute_error
    else ok none

abbrev collected : List ApiObject → Result (Option String) → Result Collection
collected os (ok next) = ok (record { items = os; next = next })
collected os (raised e) = raised e

-- XCollection.convert_with_links, after the objects are converted
unfoldable pub make_collection :
    ApiConf → Kind → Option ℕ → String → String → List ApiObject → Result Collection
unfolding get_next
make_collection conf kind limit sort_key sort_dir os =
    collected os (get_next conf kind os limit sort_key sort_dir)
