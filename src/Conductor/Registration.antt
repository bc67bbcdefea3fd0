-- ===== src/Conductor/Registration.antt =====
-- iotronic/conductor/endpoints.py: `registration`, by which a board asks for its configuration,
-- and get_best_agent. `registration` of iotronic/wamp/functions.py hands over to it.
use stack4things_openstack_i.Action.{
  Action, Exception, Result, WampMessage, choice, lift, ok, pure, raised, ◌>>=◌, ◌>>◌,
}
use stack4things_openstack_i.Base.{List, String, [], if◌then◌else◌, true, ◌∷◌}
use stack4things_openstack_i.Conductor.Provisioner.{conf_agent, conf_location, provisioner}
use stack4things_openstack_i.Db.Agents.{get_wampagent, get_wampagent_list}
use stack4things_openstack_i.Db.Boards.{get_board_by_code}
use stack4things_openstack_i.Db.Engine.{Engine, whole}
use stack4things_openstack_i.Db.Schema.{Column, Row, Value, eq_value}
use stack4things_openstack_i.Objects.{Object, load, save_board, set_attr}
use stack4things_openstack_i.Objects.Kinds.{list_locations}
use stack4things_openstack_i.Wamp.Sessions.{
  found_or_error, invalidate_old, open_session, wamp_success,
}

-- list[0]
abbrev first_of : {A : Type 0} → List A → Result A
first_of [] = raised Exception.index_error
first_of (x ∷ xs) = ok x

module _ ⦃E : Engine⦄ where
  -- one of the agents online, at random
  unfoldable pub get_best_agent : Action Value
  unfolding get_wampagent_list choice
  get_best_agent = do
    agents ← get_wampagent_list (("online", Value.bool true) ∷ []) whole
    agent ← choice agents
    pure (agent Column.hostname)

  -- the board, OFFLINE, is saved, and gets its configuration
  unfoldable pub send_config : Object → Action WampMessage
  unfolding save_board wamp_success
  send_config board = do
    save_board (set_attr board Column.status (Value.str "offline"))
    pure (wamp_success (board.row Column.config))

  module _ (stamp : Row → String → Value) (ragent_url : Value) where
    -- the configuration of a board that registers for the first time
    unfoldable pub first_config : Object → Action Object
    unfolding get_best_agent load get_wampagent list_locations provisioner conf_agent conf_location
    first_config board = do
      hostname ← get_best_agent
      agent ← load (get_wampagent hostname)
      let placed = set_attr board Column.agent hostname
      c0 ← lift (provisioner stamp placed.row)
      c1 ← lift (conf_agent "registration-agent" ragent_url (Value.str "s4t") c0)
      c2 ← lift (conf_agent "main-agent" (agent.row Column.wsurl) (Value.str "s4t") c1)
      locs ← list_locations (board.row Column.uuid)
      loc ← lift (first_of locs)
      config ← lift (conf_location stamp loc.row c2)
      pure (set_attr placed Column.config (Value.dict config))

    -- a board whose status is not `registered` has its configuration already
    unfoldable pub register_board : Object → Value → Action WampMessage
    unfolding invalidate_old open_session eq_value first_config send_config
    register_board board session_num = do
      invalidate_old board
      open_session board session_num
      (if eq_value (board.row Column.status) (Value.str "registered")
          then (do configured ← first_config board; send_config configured)
          else send_config board)

    unfoldable pub registration : Value → Value → Action WampMessage
    unfolding get_board_by_code register_board
    registration code session_num w =
        let (r, v) = get_board_by_code code w in
        found_or_error code (λ board. register_board board session_num) r v
