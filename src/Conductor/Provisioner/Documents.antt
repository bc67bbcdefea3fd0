-- ===== src/Conductor/Provisioner/Documents.antt =====
-- The configuration that a board gets.
use stack4things_openstack_i.Action.{ok}
use stack4things_openstack_i.Base.{List, String, [], if◌then◌else◌, none, refl, ◌∷◌, ◌≡◌}
use stack4things_openstack_i.Conductor.Dns.{get_field}
use stack4things_openstack_i.Conductor.Provisioner.{
  board_fields, conf_agent, conf_location, del_field, get_geo, in_section, provisioner, section_of,
  set_field, then_conf,
}
use stack4things_openstack_i.Conductor.Registration.{registration}
use stack4things_openstack_i.Db.Schema.{Column, Fields, Row, Value, is_null}

-- the document of an agent
abbrev pub agent_document : Value → Value → Value
agent_document url realm =
    Value.dict (Fields.field "url" url (Fields.field "realm" realm Fields.end))

-- a document with these entries
abbrev document : List (String × Value) → Value
document es = Value.dict (go es)
  where
    go : List (String × Value) → Fields
    go [] = Fields.end
    go ((k, v) ∷ es) = Fields.field k v (go es)

-- a place, and the time when it was updated, or else created
abbrev place_document : (Row → String → Value) → Row → Value
place_document stamp loc = document (
    ("longitude", loc Column.longitude)
    ∷ ("latitude", loc Column.latitude)
    ∷ ("altitude", loc Column.altitude)
    ∷ (
      "updated_at",
      if is_null (stamp loc "updated_at") then stamp loc "created_at" else stamp loc "updated_at",
    )
    ∷ [])

-- the fields of a board without its old configuration, and its place
abbrev pub placed_board : (Row → String → Value) → Row → Row → Value
placed_board stamp r loc = document (
    ("created_at", stamp r "created_at")
    ∷ ("updated_at", stamp r "updated_at")
    ∷ ("id", r Column.id)
    ∷ ("uuid", r Column.uuid)
    ∷ ("code", r Column.code)
    ∷ ("status", r Column.status)
    ∷ ("name", r Column.name)
    ∷ ("type", r Column.type)
    ∷ ("agent", r Column.agent)
    ∷ ("owner", r Column.owner)
    ∷ ("project", r Column.project)
    ∷ ("fleet", r Column.fleet)
    ∷ ("lr_version", r Column.lr_version)
    ∷ ("connectivity", r Column.connectivity)
    ∷ ("mobile", r Column.mobile)
    ∷ ("extra", r Column.extra)
    ∷ ("location", place_document stamp loc)
    ∷ [])

-- {"iotronic": {"extra": …, "board": …, "wamp": {"registration-agent": …, "main-agent": …}}}
abbrev pub first_document : Value → Value → Value → Fields
first_document board registration main =
    Fields.field "iotronic"
      (Value.dict (
        Fields.field "extra" (Value.dict Fields.end) (
          Fields.field "board" board (
            Fields.field "wamp"
              (Value.dict (
                Fields.field "registration-agent" registration
                  (Fields.field "main-agent" main Fields.end)))
              Fields.end))))
      Fields.end

module _ (stamp : Row → String → Value) (r loc : Row) where
  -- A board whose configuration has no section of Iotronic gets a document with the two agents, its
  -- own fields but the old configuration, and its place with longitude, latitude, altitude and time,
  -- each under its name, and nothing else.
  pub first_document_lem :
      (config : Fields) (url main_url realm : Value)
      → r Column.config ≡ Value.dict config
      → get_field "iotronic" config ≡ none
      → then_conf
          (then_conf
            (then_conf (provisioner stamp r) (conf_agent "registration-agent" url realm))
            (conf_agent "main-agent" main_url realm))
          (conf_location stamp loc)
        ≡ ok (
            first_document
              (placed_board stamp r loc)
              (agent_document url realm)
              (agent_document main_url realm))
  unfolding provisioner conf_agent conf_location in_section section_of board_fields get_geo
      set_field del_field
  first_document_lem config url main_url realm c n = rw (provisioner, c, n) refl
