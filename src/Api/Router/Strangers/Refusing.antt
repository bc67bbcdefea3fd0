-- ===== src/Api/Router/Strangers/Refusing.antt =====
-- What the API refuses to a user without a role who owns no board and no plugin.
use stack4things_openstack_i.Api.Router.Routes.{Request}
use stack4things_openstack_i.Action.{Action, World, ◌>>=◌}
use stack4things_openstack_i.Api.Boards.{
  delete_board, detail_boards, get_board_all, get_board_one, patch_board, post_board,
  post_board_action,
}
use stack4things_openstack_i.Api.Boards.Parts.{
  allow_both, delete_board_plugin, get_board_plugins, get_board_services, post_board_plugin,
  post_service_action, put_board_plugin, restore_board_services,
}
use stack4things_openstack_i.Api.Boards.Parts.Webservices.{
  get_board_webservices, put_board_webservice,
}
use stack4things_openstack_i.Api.Boards.Parts.Ports.{get_board_port, get_board_ports}
use stack4things_openstack_i.Api.Fleets.{
  delete_fleet, detail_fleets, get_fleet_all, get_fleet_boards, get_fleet_one, patch_fleet,
  post_fleet,
}
use stack4things_openstack_i.Api.Listing.{allow, allow_owner}
use stack4things_openstack_i.Api.Plugins.{
  delete_plugin, detail_plugins, get_plugin_all, get_public_plugins, patch_plugin, post_plugin,
}
use stack4things_openstack_i.Api.Ports.{get_port_all}
use stack4things_openstack_i.Api.Requests.{
  detail_requests, get_request_all, get_request_one, get_request_results,
}
use stack4things_openstack_i.Api.Router.{handle}
use stack4things_openstack_i.Api.Router.Strangers.{
  Any, Refuses, bind-Refuses, except_module-Refuses, get_rpc_board-Looks, get_rpc_fleet-Looks,
  get_rpc_plugin-Looks, get_rpc_service-Looks, get_rpc_webservice-Looks, look-Refuses, want-Refuses,
}
use stack4things_openstack_i.Api.Services.{
  delete_service, detail_services, get_public_services, get_service_all, get_service_one,
  patch_service, post_service,
}
use stack4things_openstack_i.Api.Utils.{
  ApiConf, Context, get_rpc_board, get_rpc_fleet, get_rpc_plugin, get_rpc_service,
  get_rpc_webservice,
}
use stack4things_openstack_i.Api.Webservices.{
  delete_webservice, detail_webservices, get_enabled_all, get_webservice_all, get_webservice_one,
}
use stack4things_openstack_i.Base.{
  All, Bool, String, false, none, refl, some, str_eq, true, ◌∙◌, ◌≡◌,
}
use stack4things_openstack_i.Common.Policy.{Credentials, Enforcer, set_item}
use stack4things_openstack_i.Common.Policy.Rules.{default_policies, find_rule}
use stack4things_openstack_i.Common.Policy.Strangers.{IsDefault, IsOutsider, authorize_outsider}
use stack4things_openstack_i.Db.Engine.{Engine}
use stack4things_openstack_i.Db.Filters.{filter_value}
use stack4things_openstack_i.Db.Schema.{Column, Model, Row, Value}
use stack4things_openstack_i.Objects.{Object, from_db_object}

-- The handlers that authorize the user, whatever object they are about: not those of board.py and
-- port.py that never ask, nor the one that shows a public plugin to anyone.
abbrev pub is_guarded : Request → Bool
is_guarded (Request.get_services_status a) = false
is_guarded (Request.enable_board_webservices a b c d) = false
is_guarded (Request.disable_board_webservices a) = false
is_guarded (Request.renew_board_webservices a) = false
is_guarded (Request.put_board_port a b c d) = false
is_guarded (Request.delete_board_port a b) = false
is_guarded (Request.get_plugin_one a b) = false
is_guarded (Request.get_port_one a b) = false
is_guarded (Request.delete_port_one a) = false
is_guarded q = true

-- the user of the credentials is not the owner of a row
abbrev pub IsOther : {F : Enforcer} → IsDefault F → Value → Row → Type 0
IsOther D user r = str_eq (D.shown (r Column.owner)) (D.shown user) ≡ false

-- the credentials of a user without a role, and without an owner among their entries
pub record IsStranger (c : Credentials) (user : Value) : Type 0 where
  pub outsider : IsOutsider c
  pub named : filter_value "user" c.values ≡ some user
  pub ownerless : filter_value "owner" c.values ≡ none

module _ ⦃E : Engine⦄ ⦃F : Enforcer⦄ (D : IsDefault F) (conf : ApiConf) (ctx : Context)
    (user : Value) (s : IsStranger ctx.policy_values user) (w : World) where
  keyed-IsOutsider : (k : String) (v : Value) → IsOutsider (set_item ctx.policy_values k v)
  unfolding set_item
  keyed-IsOutsider k v = record {
    not_admin = s.outsider.not_admin;
    not_administrator = s.outsider.not_administrator;
    not_admin_iot_project = s.outsider.not_admin_iot_project;
    not_manager_iot_project = s.outsider.not_manager_iot_project;
    not_user_iot = s.outsider.not_user_iot;
  }

  -- what user_is_lem says of one dictionary as target and credentials
  abbrev owns : Credentials → Bool
  owns c = elim (filter_value "owner" c.values) [
    | none ↦ false
    | some v ↦ elim (filter_value "user" c.values) [
      | none ↦ false
      | some u ↦ str_eq (D.shown v) (D.shown u)
    ]
  ]

  allowed_not :
      (c : Credentials)
      → IsOutsider c
      → owns c ≡ false
      → (n : String) → find_rule n default_policies ≡ none
      → Refuses w (allow n c)
  unfolding allow
  allowed_not c out h n fresh =
      let (e, p) = authorize_outsider D c c out (D.user_is_lem "owner" c c ∙ h) n fresh in
      record { error = e; stops = rw p refl }

  allow-Refuses :
      (n : String) → find_rule n default_policies ≡ none → Refuses w (allow n ctx.policy_values)
  allow-Refuses n fresh =
      allowed_not ctx.policy_values s.outsider (rw (owns, s.ownerless) refl) n fresh

  allow_keyed-Refuses :
      (n k : String) (v : Value)
      → find_rule n default_policies ≡ none
      → str_eq "owner" k ≡ false
      → Refuses w (allow n (set_item ctx.policy_values k v))
  unfolding set_item
  allow_keyed-Refuses n k v fresh other =
      allowed_not (set_item ctx.policy_values k v) (keyed-IsOutsider k v)
        (rw (owns, other, s.ownerless) refl) n fresh

  allow_owner-Refuses :
      (n : String) (v : Value)
      → find_rule n default_policies ≡ none
      → str_eq (D.shown v) (D.shown user) ≡ false
      → Refuses w (allow_owner n ctx v)
  unfolding allow_owner set_item
  allow_owner-Refuses n v fresh other =
      allowed_not (set_item ctx.policy_values "owner" v) (keyed-IsOutsider "owner" v)
        (rw (owns, s.named, other) refl) n fresh

  module _ (boards : All (IsOther D user) (w.tables Model.board))
      (plugins : All (IsOther D user) (w.tables Model.plugin)) where
    module _ {B : Type 0} (i : String) (f : Object → Action B) where
      get_rpc_board-Refuses :
          ((r : Row) → IsOther D user r → Refuses w (f (from_db_object r)))
          → Refuses w (get_rpc_board i >>= f)
      get_rpc_board-Refuses k =
          look-Refuses (IsOther D user) (get_rpc_board i) f
            (get_rpc_board-Looks (IsOther D user) i w boards) k

      get_rpc_plugin-Refuses :
          ((r : Row) → IsOther D user r → Refuses w (f (from_db_object r)))
          → Refuses w (get_rpc_plugin i >>= f)
      get_rpc_plugin-Refuses k =
          look-Refuses (IsOther D user) (get_rpc_plugin i) f
            (get_rpc_plugin-Looks (IsOther D user) i w plugins) k

      get_rpc_service-Refuses :
          ((r : Row) → Any r → Refuses w (f (from_db_object r)))
          → Refuses w (get_rpc_service i >>= f)
      get_rpc_service-Refuses k =
          look-Refuses Any (get_rpc_service i) f (get_rpc_service-Looks i w) k

      get_rpc_fleet-Refuses :
          ((r : Row) → Any r → Refuses w (f (from_db_object r))) → Refuses w (get_rpc_fleet i >>= f)
      get_rpc_fleet-Refuses k = look-Refuses Any (get_rpc_fleet i) f (get_rpc_fleet-Looks i w) k

      get_rpc_webservice-Refuses :
          ((r : Row) → Any r → Refuses w (f (from_db_object r)))
          → Refuses w (get_rpc_webservice i >>= f)
      get_rpc_webservice-Refuses k =
          look-Refuses Any (get_rpc_webservice i) f (get_rpc_webservice-Looks i w) k

    ruleset refusing_rules = (
      bind-Refuses, except_module-Refuses, want-Refuses, allow-Refuses, allow_keyed-Refuses,
      allow_owner-Refuses, get_rpc_board-Refuses, get_rpc_plugin-Refuses, get_rpc_service-Refuses,
      get_rpc_fleet-Refuses, get_rpc_webservice-Refuses,
    )

    -- A user without a role of the default rules, who owns no board and no plugin, gets nothing from
    -- a handler that authorizes: whatever the request, it raises, and neither the tables nor anything
    -- else has changed, and no message was sent.
    pub handle_refused : (q : Request) → is_guarded q ≡ true → Refuses w (handle conf ctx q)
    unfolding handle get_board_one get_board_all detail_boards post_board delete_board patch_board
        post_board_action get_board_plugins post_board_plugin put_board_plugin delete_board_plugin
        get_board_services post_service_action restore_board_services get_board_webservices
        put_board_webservice get_board_ports get_board_port get_public_plugins get_plugin_all
        detail_plugins post_plugin delete_plugin patch_plugin get_public_services get_service_one
        get_service_all detail_services post_service delete_service patch_service get_fleet_boards
        get_fleet_one get_fleet_all post_fleet delete_fleet patch_fleet detail_fleets
        get_webservice_one get_webservice_all delete_webservice detail_webservices get_enabled_all
        get_port_all get_request_results get_request_one get_request_all detail_requests allow_both
        find_rule
    handle_refused (Request.get_board_one a b) h = search (refusing_rules) depth 40 fits 5000
    handle_refused (Request.get_board_all a b c) h = search (refusing_rules) depth 40 fits 5000
    handle_refused (Request.detail_boards a b c d) h = search (refusing_rules) depth 40 fits 5000
    handle_refused (Request.post_board a) h = search (refusing_rules) depth 40 fits 5000
    handle_refused (Request.delete_board a) h = search (refusing_rules) depth 40 fits 5000
    handle_refused (Request.patch_board a b) h = search (refusing_rules) depth 40 fits 5000
    handle_refused (Request.post_board_action a b c) h = search (refusing_rules) depth 40 fits 5000
    handle_refused (Request.get_board_plugins a) h = search (refusing_rules) depth 40 fits 5000
    handle_refused (Request.post_board_plugin a b c d) h =
        search (refusing_rules) depth 40 fits 5000
    handle_refused (Request.put_board_plugin a b c) h = search (refusing_rules) depth 40 fits 5000
    handle_refused (Request.delete_board_plugin a b) h = search (refusing_rules) depth 40 fits 5000
    handle_refused (Request.get_board_services a) h = search (refusing_rules) depth 40 fits 5000
    handle_refused (Request.post_service_action a b c) h =
        search (refusing_rules) depth 40 fits 5000
    handle_refused (Request.restore_board_services a) h = search (refusing_rules) depth 40 fits 5000
    handle_refused (Request.get_services_status a) h = cc
    handle_refused (Request.get_board_webservices a b) h =
        search (refusing_rules) depth 40 fits 5000
    handle_refused (Request.put_board_webservice a b) h = search (refusing_rules) depth 40 fits 5000
    handle_refused (Request.enable_board_webservices a b c d) h = cc
    handle_refused (Request.disable_board_webservices a) h = cc
    handle_refused (Request.renew_board_webservices a) h = cc
    handle_refused (Request.put_board_port a b c d) h = cc
    handle_refused (Request.delete_board_port a b) h = cc
    handle_refused (Request.get_board_ports a) h = search (refusing_rules) depth 40 fits 5000
    handle_refused (Request.get_board_port a b) h = search (refusing_rules) depth 40 fits 5000
    handle_refused (Request.get_public_plugins a) h = search (refusing_rules) depth 40 fits 5000
    handle_refused (Request.get_plugin_one a b) h = cc
    handle_refused (Request.get_plugin_all a b c) h = search (refusing_rules) depth 40 fits 5000
    handle_refused (Request.detail_plugins a b c d) h = search (refusing_rules) depth 40 fits 5000
    handle_refused (Request.post_plugin a) h = search (refusing_rules) depth 40 fits 5000
    handle_refused (Request.delete_plugin a) h = search (refusing_rules) depth 40 fits 5000
    handle_refused (Request.patch_plugin a b) h = search (refusing_rules) depth 40 fits 5000
    handle_refused (Request.get_public_services a) h = search (refusing_rules) depth 40 fits 5000
    handle_refused (Request.get_service_one a b) h = search (refusing_rules) depth 40 fits 5000
    handle_refused (Request.get_service_all a b c) h = search (refusing_rules) depth 40 fits 5000
    handle_refused (Request.detail_services a b c d) h = search (refusing_rules) depth 40 fits 5000
    handle_refused (Request.post_service a) h = search (refusing_rules) depth 40 fits 5000
    handle_refused (Request.delete_service a) h = search (refusing_rules) depth 40 fits 5000
    handle_refused (Request.patch_service a b) h = search (refusing_rules) depth 40 fits 5000
    handle_refused (Request.get_fleet_boards a b) h = search (refusing_rules) depth 40 fits 5000
    handle_refused (Request.get_fleet_one a b) h = search (refusing_rules) depth 40 fits 5000
    handle_refused (Request.get_fleet_all a) h = search (refusing_rules) depth 40 fits 5000
    handle_refused (Request.post_fleet a) h = search (refusing_rules) depth 40 fits 5000
    handle_refused (Request.delete_fleet a) h = search (refusing_rules) depth 40 fits 5000
    handle_refused (Request.patch_fleet a b) h = search (refusing_rules) depth 40 fits 5000
    handle_refused (Request.detail_fleets a b) h = search (refusing_rules) depth 40 fits 5000
    handle_refused (Request.get_webservice_one a b) h = search (refusing_rules) depth 40 fits 5000
    handle_refused (Request.get_webservice_all a) h = search (refusing_rules) depth 40 fits 5000
    handle_refused (Request.delete_webservice a) h = search (refusing_rules) depth 40 fits 5000
    handle_refused (Request.detail_webservices a b) h = search (refusing_rules) depth 40 fits 5000
    handle_refused (Request.get_enabled_all a) h = search (refusing_rules) depth 40 fits 5000
    handle_refused (Request.get_port_all a) h = search (refusing_rules) depth 40 fits 5000
    handle_refused (Request.get_port_one a b) h = cc
    handle_refused (Request.delete_port_one a) h = cc
    handle_refused (Request.get_request_results a b) h = search (refusing_rules) depth 40 fits 5000
    handle_refused (Request.get_request_one a b) h = search (refusing_rules) depth 40 fits 5000
    handle_refused (Request.get_request_all a) h = search (refusing_rules) depth 40 fits 5000
    handle_refused (Request.detail_requests a b) h = search (refusing_rules) depth 40 fits 5000
