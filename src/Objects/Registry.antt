-- ===== src/Objects/Registry.antt =====
-- iotronic/objects/conductor.py and wampagent.py: the objects of the registries. save is refused by
-- both classes.

use stack4things_openstack_i.Action.{Action, Exception, pure, raise, ◌>>=◌}
use stack4things_openstack_i.Base.{List, Option, map, none, some}
use stack4things_openstack_i.Db.Agents.{
  get_conductor, get_registration_wampagent, get_wampagent, get_wampagent_list, touch_conductor,
  touch_wampagent,
}
use stack4things_openstack_i.Db.Engine.{Engine, Page}
use stack4things_openstack_i.Db.Filters.{Filters}
use stack4things_openstack_i.Db.Schema.{Column, Row, Value}
use stack4things_openstack_i.Objects.{Object, from_db_object, load}

-- a row that is None has no fields
abbrev pub found_object : Option Row → Action Object
found_object none = raise Exception.type_error
found_object (some r) = pure (from_db_object r)

module _ ⦃E : Engine⦄ where
  unfoldable pub get_conductor_object : Value → Action Object
  unfolding load get_conductor
  get_conductor_object hostname = load (get_conductor hostname)

  unfoldable touch_conductor_object : Object → Action (Unit {0})
  unfolding touch_conductor
  touch_conductor_object o = touch_conductor (o.row Column.hostname)

  unfoldable pub get_wampagent_object : Value → Action Object
  unfolding load get_wampagent
  get_wampagent_object hostname = load (get_wampagent hostname)

  unfoldable pub get_registration_agent : Action Object
  unfolding get_registration_wampagent
  get_registration_agent = do found ← get_registration_wampagent; found_object found

  unfoldable touch_wampagent_object : Object → Action (Unit {0})
  unfolding touch_wampagent
  touch_wampagent_object o = touch_wampagent (o.row Column.hostname)

  unfoldable list_wampagents : Filters → Page → Action (List Object)
  unfolding get_wampagent_list
  list_wampagents filters page = do
    rows ← get_wampagent_list filters page
    pure (map from_db_object rows)
