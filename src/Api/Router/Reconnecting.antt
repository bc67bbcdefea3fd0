-- ===== src/Api/Router/Reconnecting.antt =====
-- Whatever has happened, a board can connect.
use stack4things_openstack_i.Action.{World, ok}
use stack4things_openstack_i.Api.Router.Sessions.{Runs, reached-IsSingle}
use stack4things_openstack_i.Api.Utils.{ApiConf}
use stack4things_openstack_i.Base.{List, String, [], filter, ◌∷◌, ◌≡◌}
use stack4things_openstack_i.Common.Policy.{Enforcer}
use stack4things_openstack_i.Db.Engine.{Engine, stored}
use stack4things_openstack_i.Db.Laws.{IsNumber}
use stack4things_openstack_i.Db.Query.{has, one}
use stack4things_openstack_i.Db.Schema.{Column, Model, Row, Tables, Value, assign}
use stack4things_openstack_i.Objects.Laws.{IsUuid}
use stack4things_openstack_i.Wamp.Sessions.{Info, connection, wamp_success}
use stack4things_openstack_i.Objects.{Object, obj_get_changes, str_or_none}
use stack4things_openstack_i.Wamp.Sessions.Joining.{
  connection_opens, marked, online, Accepts, session_values, valid_of,
}
use stack4things_openstack_i.Wamp.Sessions.Known.{board-Known}

module _ ⦃E : Engine⦄ ⦃F : Enforcer⦄ (conf : ApiConf) (start w : World)
    (none_yet : start.tables Model.session ≡ []) (run : Runs conf start w) where
  abbrev sessions_of : String → List Row
  sessions_of u = filter (valid_of (Value.str u)) (w.tables Model.session)

  -- After any sequence of requests and calls that began without sessions, a board that has a row
  -- can connect, online or not: where the database takes the new session and the types of the
  -- board's fields accept the info, the call succeeds, the new session is the only valid one of the
  -- board, and the board is online.
  pub board_connects :
      (u : String) (b : Row)
      → IsUuid (Value.str u)
      → filter (has Column.uuid (Value.str u)) (w.tables Model.board) ≡ b ∷ []
      → IsNumber (b Column.id)
      → (session : Value) (info : Info) (o : Object) (row : Row) (t : Tables) → Accepts info b o
      → E.insert (marked w.tables (sessions_of u)) Model.session (session_values b session)
        ≡ stored row t
      → ((connection (Value.str u) session info w).0 ≡ ok (wamp_success (Value.str "")))
        × (filter
              (valid_of (Value.str u))
              ((connection (Value.str u) session info w).1.tables Model.session)
            ≡ row ∷ [])
        × (row Column.session_id ≡ str_or_none session)
        × ((after : Row) × (filter
                (has Column.uuid (Value.str u))
                ((connection (Value.str u) session info w).1.tables Model.board)
              ≡ after ∷ [])
            × (after Column.status ≡ online))
  board_connects u b i one n session info o row t accepts created =
      let single = reached-IsSingle conf start w none_yet run in
      let opened =
        connection_opens w (Value.str u) b (sessions_of u) (board-Known w single u b i one n)
          session info row t created o accepts in
      (opened.0, opened.1, opened.2, (assign (obj_get_changes o) b, opened.4, opened.5))
