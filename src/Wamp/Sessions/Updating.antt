-- ===== src/Wamp/Sessions/Updating.antt =====
-- update_sessions, which closes the sessions that the router does not report any more.
use stack4things_openstack_i.Db.Query.{both, has}
use stack4things_openstack_i.Action.{Exception, World, raised}
use stack4things_openstack_i.Base.{List, [], arith, filter, ◌∷◌, ◌≡◌}
use stack4things_openstack_i.Db.Engine.{Engine}
use stack4things_openstack_i.Db.Filters.{one_value}
use stack4things_openstack_i.Db.Schema.{Column, Model, Row, Value}
use stack4things_openstack_i.Db.Sessions.{served_by}
use stack4things_openstack_i.Wamp.Sessions.{numbers_of, board_on_leave, update_sessions}
use stack4things_openstack_i.Wamp.Sessions.Leaving.{IsOpen}

-- the sessions that the database has as valid for the boards of an agent
abbrev pub known_sessions : ⦃E : Engine⦄ → World → Value → List Row
known_sessions w agent =
    filter (both (has Column.valid one_value) (served_by w.tables agent)) (w.tables Model.session)

module _ ⦃E : Engine⦄ where
  -- Each session in turn, when those before it have left, is a valid one of a board that is known.
  abbrev pub IsClosable : List Value → World → Type 0
  IsClosable [] w = Unit
  IsClosable (x ∷ xs) w =
      ((r : Row) × (b : Row) × IsOpen w x r b) × IsClosable xs (board_on_leave x w).1

  module _ (reported : List Value) (agent : Value) (w : World) where
    known_lem :
        E.select w.tables Model.session
          (both (has Column.valid one_value) (served_by w.tables agent))
        ≡ known_sessions w agent
    known_lem =
        E.select_lem w.tables Model.session
          (both (has Column.valid one_value) (served_by w.tables agent))

    -- Where the number of a valid session cannot be read, it raises, and no session is closed.
    update_sessions_unread :
        (e : Exception)
        → numbers_of (known_sessions w agent) ≡ raised e
        → update_sessions reported agent w ≡ (raised e, w)
    unfolding update_sessions
    update_sessions_unread e n = ground (arith, known_lem, n)
