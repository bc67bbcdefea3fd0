-- ===== src/Db/Registry.antt =====
-- The registry of conductors: registration of a running one, and leaving.
use stack4things_openstack_i.Action.{Exception, World, ok, raised}
use stack4things_openstack_i.Base.{
  Bool, List, [], arith, eq_ℤ, false, filter, map, not, refl, true, ◌∙◌, ◌∷◌, ◌≡◌,
}
use stack4things_openstack_i.Db.Agents.{
  get_conductor, online_host, register_conductor, unregister_conductor,
}
use stack4things_openstack_i.Db.Engine.{Engine, rewrite}
use stack4things_openstack_i.Db.Laws.{filter-rewrite_lost, one_missing, update_rows_lem}
use stack4things_openstack_i.Db.Query.{has}
use stack4things_openstack_i.Db.Schema.{
  Column, Model, Row, Value, Values, eq_value, set_rows, value_of,
}
use stack4things_openstack_i.Db.Sessions.{or_none}

filter-complement :
    (p : Row → Bool) (rows : List Row) → filter (λ r. not (p r)) (filter p rows) ≡ []
unfolding filter
filter-complement p [] = refl
filter-complement p (r ∷ rows) = ground (arith, filter-complement p rows)

module _ ⦃E : Engine⦄ (w : World) where
  -- A conductor that is online under the hostname is not registered a second time, unless the
  -- caller asks for an update: the call raises, and the world is as it was.
  pub register_conductor_taken :
      (values : Values) (ref : Row)
      → filter (has Column.hostname (value_of Column.hostname values)) (w.tables Model.conductor)
        ≡ ref ∷ []
      → ref Column.online ≡ Value.bool true
      → register_conductor values false w
        ≡ (raised (Exception.conductor_already_registered (value_of Column.hostname values)), w)
  unfolding register_conductor or_none
  register_conductor_taken values ref h is_on = ground (
    arith,
    E.select_lem w.tables Model.conductor (has Column.hostname (value_of Column.hostname values)),
    h,
    is_on,
  )

  module _ (hostname : Value) where
    -- No conductor is online under the hostname: unregistering it raises and changes nothing.
    unregister_conductor_missing :
        filter (online_host hostname) (w.tables Model.conductor) ≡ []
        → unregister_conductor hostname w ≡ (raised (Exception.conductor_not_found hostname), w)
    unfolding unregister_conductor
    unregister_conductor_missing h = ground (
      arith,
      update_rows_lem w Model.conductor (online_host hostname)
          ((Column.online, Value.bool false) ∷ []) refl,
      h,
    )

    get_conductor_missing :
        (v : World)
        → filter (online_host hostname) (v.tables Model.conductor) ≡ []
        → get_conductor hostname v ≡ (raised (Exception.conductor_not_found hostname), v)
    unfolding get_conductor
    get_conductor_missing v h =
        ground (arith, one_missing v Model.conductor (online_host hostname) h)

    -- After a conductor is unregistered, looking it up raises ConductorNotFound.
    pub get-unregister_conductor :
        (r : Row) (rs : List Row)
        → filter (online_host hostname) (w.tables Model.conductor) ≡ r ∷ rs
        → ((unregister_conductor hostname w).0 ≡ ok tt)
          × (get_conductor hostname (unregister_conductor hostname w).1 ≡ (
            raised (Exception.conductor_not_found hostname),
            (unregister_conductor hostname w).1,
          ))
    unfolding unregister_conductor has eq_value eq_ℤ
    get-unregister_conductor r rs h =
        let off : Values = (Column.online, Value.bool false) ∷ [] in
        let v = record w {
          tables =
              set_rows w.tables Model.conductor
                (map (rewrite (online_host hostname) off) (w.tables Model.conductor));
        } in
        let run : unregister_conductor hostname w ≡ (ok tt, v) =
          ground (arith, update_rows_lem w Model.conductor (online_host hostname) off refl, h) in
        let gone : filter (online_host hostname) (v.tables Model.conductor) ≡ [] =
          filter-rewrite_lost (online_host hostname) (online_host hostname) off (λ q. ground arith)
            (w.tables Model.conductor)
          ∙ filter-complement (online_host hostname) (w.tables Model.conductor) in
        rw run (refl, get_conductor_missing v gone)
