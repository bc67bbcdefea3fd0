-- ===== src/Db/Agents.antt =====
-- db/sqlalchemy/api.py: the registries of conductors and of wamp agents, which run the same steps.
use stack4things_openstack_i.Base.{
  Bool, true, false, ◌&&◌, not, Option, none, some, List, [], ◌∷◌, ◌++◌, if◌then◌else◌, ◌==◌,
}
use stack4things_openstack_i.Db.Schema.{Value, Model, Column, Row, Values, value_of, assign}
use stack4things_openstack_i.Db.Engine.{Engine, Page}
use stack4things_openstack_i.Db.Query.{
  has, both, every, one, insert_row, update_rows, paginate_query,
}
use stack4things_openstack_i.Db.Filters.{Filters, add_wampagents_filters}
use stack4things_openstack_i.Action.{
  Exception, World, Action, ◌>>=◌, ◌>>◌, pure, raise, or_not_found, transaction,
}
use stack4things_openstack_i.Base.{pos}
use stack4things_openstack_i.Db.Sessions.{or_none}

abbrev hostname_of : Values → Row → Bool
hostname_of values = has Column.hostname (value_of Column.hostname values)

abbrev pub online_host : Value → Row → Bool
online_host hostname = both (has Column.hostname hostname) (has Column.online (Value.bool true))

-- {'updated_at': timeutils.utcnow(), 'online': True}
abbrev heartbeat : World → Values
heartbeat w = (Column.updated_at, Value.int (pos w.now)) ∷ (Column.online, Value.bool true) ∷ []

-- ref.online is True
is_true : Value → Bool
is_true (Value.bool b) = b
is_true v = false

module _ ⦃E : Engine⦄ where
  -- the row found, or a new one, is updated with the values and marked online
  registered : Model → (Value → Exception) → Values → Bool → Option Row → Action Row
  unfolding update_rows insert_row is_true
  registered m already values update_existing none w = insert_row m (values ++ heartbeat w) w
  registered m already values update_existing (some ref) w =
      if is_true (ref Column.online) && not update_existing
      then raise (already (value_of Column.hostname values)) w
      else (do
        update_rows m (has Column.id (ref Column.id)) (values ++ heartbeat w)
        pure (assign (values ++ heartbeat w) ref))
          w

  unfoldable pub register_conductor : Values → Bool → Action Row
  unfolding registered update_rows insert_row
  register_conductor values update_existing = transaction do
    found ← (λ w. (or_none (E.select w.tables Model.conductor (hostname_of values)), w))
    registered Model.conductor Exception.conductor_already_registered values update_existing found

  unfoldable pub get_conductor : Value → Action Row
  unfolding one
  get_conductor hostname =
      or_not_found (one Model.conductor (online_host hostname))
        (Exception.conductor_not_found hostname)

  unfoldable pub unregister_conductor : Value → Action (Unit {0})
  unfolding update_rows
  unregister_conductor hostname = transaction do
    count ←
        update_rows Model.conductor (online_host hostname) ((Column.online, Value.bool false) ∷ [])
    if count == 0 then raise (Exception.conductor_not_found hostname) else pure tt

  unfoldable pub touch_conductor : Value → Action (Unit {0})
  unfolding update_rows
  touch_conductor hostname = transaction do
    count ← (λ w. update_rows Model.conductor (has Column.hostname hostname) (heartbeat w) w)
    if count == 0 then raise (Exception.conductor_not_found hostname) else pure tt

  unfoldable pub register_wampagent : Values → Bool → Action Row
  unfolding registered update_rows insert_row
  register_wampagent values update_existing = transaction do
    found ← (λ w. (or_none (E.select w.tables Model.wamp_agent (hostname_of values)), w))
    registered Model.wamp_agent Exception.wampagent_already_registered values update_existing found

  unfoldable pub get_wampagent : Value → Action Row
  unfolding one
  get_wampagent hostname =
      or_not_found (one Model.wamp_agent (online_host hostname))
        (Exception.wampagent_not_found hostname)

  unfoldable pub unregister_wampagent : Value → Action (Unit {0})
  unfolding update_rows
  unregister_wampagent hostname = transaction do
    count ←
        update_rows Model.wamp_agent (online_host hostname) ((Column.online, Value.bool false) ∷ [])
    if count == 0 then raise (Exception.wampagent_not_found hostname) else pure tt

  unfoldable pub touch_wampagent : Value → Action (Unit {0})
  unfolding update_rows
  touch_wampagent hostname = transaction do
    count ← (λ w. update_rows Model.wamp_agent (has Column.hostname hostname) (heartbeat w) w)
    if count == 0 then raise (Exception.wampagent_not_found hostname) else pure tt

  unfoldable pub get_registration_wampagent : Action (Option Row)
  get_registration_wampagent w = (
    or_none (
        E.select w.tables Model.wamp_agent
          (both (has Column.ragent (Value.bool true)) (has Column.online (Value.bool true)))),
    w,
  )

  unfoldable pub get_wampagent_list : Filters → Page → Action (List Row)
  unfolding paginate_query add_wampagents_filters
  get_wampagent_list fs page =
      paginate_query Model.wamp_agent page (add_wampagents_filters fs every)
