-- ===== src/Conductor/Provisioner.antt =====
-- iotronic/conductor/provisioner.py: the configuration document of a board. created_at and
-- updated_at are no columns here: `stamp row name` is what _attr_to_primitive makes of them.
pub mod Documents
use stack4things_openstack_i.Action.{Exception, Result, ok, raised}
use stack4things_openstack_i.Base.{String, if◌then◌else◌, none, some, str_eq}
use stack4things_openstack_i.Conductor.Dns.{get_field}
use stack4things_openstack_i.Db.Schema.{Column, Fields, Row, Value, is_null}

-- d[k] = v
unfoldable pub set_field : String → Value → Fields → Fields
set_field k v Fields.end = Fields.field k v Fields.end
set_field k v (Fields.field j u fs) =
    if str_eq j k then Fields.field j v fs else Fields.field j u (set_field k v fs)

-- del d[k], where there may be no such key
unfoldable pub del_field : String → Fields → Fields
del_field k Fields.end = Fields.end
del_field k (Fields.field j u fs) = if str_eq j k then fs else Fields.field j u (del_field k fs)

-- a value that is indexed by texts: TypeError on anything else
unfoldable as_document : Value → Result Fields
as_document (Value.dict fs) = ok fs
as_document v = raised Exception.type_error

-- what stands under a key, or an empty document where nothing does
unfoldable pub section_of : String → Fields → Result Fields
unfolding get_field as_document
section_of k fs = elim (get_field k fs) [ none ↦ ok Fields.end | some v ↦ as_document v ]

-- {"iotronic": {"extra": {}}}
abbrev empty_config : Fields
empty_config =
    Fields.field "iotronic" (Value.dict (Fields.field "extra" (Value.dict Fields.end) Fields.end))
      Fields.end

-- f of what stands under "iotronic", put back there; the key is there after __init__
unfoldable in_iotronic : (Fields → Result Fields) → Fields → Result Fields
unfolding get_field as_document set_field
in_iotronic f config = elim (get_field "iotronic" config) [
  | none ↦ raised Exception.key_error
  | some v ↦ elim (as_document v) [
    | raised e ↦ raised e
    | ok iotronic ↦ elim (f iotronic) [
      | raised e ↦ raised e
      | ok changed ↦ ok (set_field "iotronic" (Value.dict changed) config)
    ]
  ]
]

-- f of the document under a key, empty where there is none, put back there
unfoldable pub in_section : String → (Fields → Result Fields) → Fields → Result Fields
unfolding section_of set_field
in_section k f fs = elim (section_of k fs) [
  | raised e ↦ raised e
  | ok section ↦ elim (f section) [
    | raised e ↦ raised e
    | ok changed ↦ ok (set_field k (Value.dict changed) fs)
  ]
]

-- board.as_dict(), with its times as texts
unfoldable pub board_fields : (Row → String → Value) → Row → Fields
board_fields stamp r = Fields.field "created_at" (stamp r "created_at") (
    Fields.field "updated_at" (stamp r "updated_at") (
      Fields.field "id" (r Column.id) (
        Fields.field "uuid" (r Column.uuid) (
          Fields.field "code" (r Column.code) (
            Fields.field "status" (r Column.status) (
              Fields.field "name" (r Column.name) (
                Fields.field "type" (r Column.type) (
                  Fields.field "agent" (r Column.agent) (
                    Fields.field "owner" (r Column.owner) (
                      Fields.field "project" (r Column.project) (
                        Fields.field "fleet" (r Column.fleet) (
                          Fields.field "lr_version" (r Column.lr_version) (
                            Fields.field "connectivity" (r Column.connectivity) (
                              Fields.field "mobile" (r Column.mobile) (
                                Fields.field "config" (r Column.config)
                                  (Fields.field "extra" (r Column.extra) Fields.end))))))))))))))))

-- Provisioner(board): a document without "iotronic" is begun anew
unfoldable pub provisioner : (Row → String → Value) → Row → Result Fields
unfolding as_document get_field in_iotronic set_field board_fields del_field
provisioner stamp r = elim (as_document (r Column.config)) [
  | raised e ↦ raised e
  | ok config ↦
      in_iotronic
        (λ iotronic.
          ok (set_field "board" (Value.dict (del_field "config" (board_fields stamp r))) iotronic))
        (elim (get_field "iotronic" config) [ none ↦ empty_config | some v ↦ config ])
]

-- conf_registration_agent(url, realm) and conf_main_agent(url, realm)
unfoldable pub conf_agent : String → Value → Value → Fields → Result Fields
unfolding in_iotronic in_section set_field
conf_agent agent url realm = in_iotronic (
    in_section "wamp"
      (in_section agent (λ fs. ok (set_field "realm" realm (set_field "url" url fs)))))

-- location.get_geo()
unfoldable pub get_geo : (Row → String → Value) → Row → Fields
unfolding is_null
get_geo stamp loc = Fields.field "longitude" (loc Column.longitude) (
    Fields.field "latitude" (loc Column.latitude) (
      Fields.field "altitude" (loc Column.altitude) (
        Fields.field "updated_at"
          (if is_null (stamp loc "updated_at")
            then stamp loc "created_at"
            else stamp loc "updated_at")
          Fields.end)))

-- conf_location(location)
unfoldable pub conf_location : (Row → String → Value) → Row → Fields → Result Fields
unfolding in_iotronic get_field as_document set_field get_geo
conf_location stamp loc = in_iotronic (λ iotronic. elim (get_field "board" iotronic) [
  | none ↦ raised Exception.key_error
  | some v ↦ elim (as_document v) [
    | raised e ↦ raised e
    | ok board ↦ ok (
        set_field "board" (Value.dict (set_field "location" (Value.dict (get_geo stamp loc)) board))
          iotronic)
  ]
])

abbrev pub then_conf : Result Fields → (Fields → Result Fields) → Result Fields
then_conf (ok fs) f = f fs
then_conf (raised e) f = raised e

-- conf_clean: the placeholders, and no token
unfoldable conf_clean : Fields → Result Fields
unfolding conf_agent in_iotronic in_section set_field
conf_clean config =
    then_conf
      (conf_agent "registration-agent" (Value.str "ws://<WAMP-SERVER>:<WAMP-PORT>/")
        (Value.str "s4t") config)
      (in_iotronic (
        in_section "board"
          (λ board. ok (set_field "token" (Value.str "<REGISTRATION-TOKEN>") board))))
