-- ===== src/Api/Router/Reading/Showing.antt =====
-- What the handlers make of the objects that they read leaves the tables alone.
use stack4things_openstack_i.Api.Router.Reading.{get_wampagent-Keeps}
use stack4things_openstack_i.Action.{Action}
use stack4things_openstack_i.Action.Keeps.{
  Keeps, bind-Keeps, if-Keeps, keeps_rules, lift-Keeps, pure-Keeps, raise-Keeps,
}
use stack4things_openstack_i.Api.Boards.{first_location}
use stack4things_openstack_i.Api.Listing.{
  Query, allow, allow_owner, find_marker, get_page, no_marker, show, show_board, show_boards,
  show_list, unchecked_limit,
}
use stack4things_openstack_i.Api.Resources.{Kind}
use stack4things_openstack_i.Api.Resources.Boards.{
  agent_address, cached_ip, config_of, convert_board, convert_boards, locations_of, remember_ip,
  session_of, wstun_ip,
}
use stack4things_openstack_i.Api.Utils.{ApiConf, Context, check_if_online, want, want_name}
use stack4things_openstack_i.Base.{List, Option, String, [], negsuc, none, pos, some, ℕ, ℤ, ◌∷◌}
use stack4things_openstack_i.Common.Policy.{Credentials, Enforcer}
use stack4things_openstack_i.Db.Agents.{get_registration_wampagent}
use stack4things_openstack_i.Db.Boards.{get_board_id_by_uuid, get_locations_by_board_id}
use stack4things_openstack_i.Db.Engine.{Engine}
use stack4things_openstack_i.Db.Keeping.{one-Keeps, paginate_query-Keeps}
use stack4things_openstack_i.Db.Schema.{Row, Tables, Value, Values}
use stack4things_openstack_i.Db.Sessions.{get_session_by_board_uuid}
use stack4things_openstack_i.Objects.{Object}
use stack4things_openstack_i.Objects.Kinds.{list_locations}
use stack4things_openstack_i.Objects.Registry.{
  found_object, get_registration_agent, get_wampagent_object,
}
use stack4things_openstack_i.Wamp.Sessions.Keeping.{get_board_by_uuid-Keeps, load-Keeps}

module _ ⦃E : Engine⦄ {P : Tables → Type 0} where
  pub allow-Keeps : ⦃F : Enforcer⦄ → (n : String) (c : Credentials) → Keeps P (allow n c)
  unfolding allow
  allow-Keeps n c = lift-Keeps _

  pub allow_owner-Keeps :
      ⦃F : Enforcer⦄ → (n : String) (c : Context) (v : Value) → Keeps P (allow_owner n c v)
  unfolding allow_owner
  allow_owner-Keeps n c v = allow-Keeps _ _

  pub want-Keeps : (v : Value) → Keeps P (want v)
  unfolding want
  want-Keeps v = search (if-Keeps, pure-Keeps, raise-Keeps)

  pub want_name-Keeps : (v : Value) → Keeps P (want_name v)
  unfolding want_name
  want_name-Keeps v = search (if-Keeps, pure-Keeps, raise-Keeps)

  pub check_if_online-Keeps : (o : Object) → Keeps P (check_if_online o)
  unfolding check_if_online
  check_if_online-Keeps o = search (if-Keeps, pure-Keeps, raise-Keeps)

  pub unchecked_limit-Keeps : (l : Option ℤ) → Keeps P (unchecked_limit l)
  unfolding unchecked_limit
  unchecked_limit-Keeps none = pure-Keeps _
  unchecked_limit-Keeps (some (pos n)) = pure-Keeps _
  unchecked_limit-Keeps (some (negsuc n)) = raise-Keeps _

  pub no_marker-Keeps : (m : Option String) → Keeps P (no_marker m)
  unfolding no_marker
  no_marker-Keeps none = pure-Keeps tt
  no_marker-Keeps (some m) = raise-Keeps _

  pub first_location-Keeps : (ls : List Values) → Keeps P (first_location ls)
  first_location-Keeps [] = raise-Keeps _
  first_location-Keeps (l ∷ ls) = pure-Keeps l

  pub remember_ip-Keeps : (v : Value) (ip : String) → Keeps P (remember_ip v ip)
  unfolding remember_ip
  remember_ip-Keeps v ip = record { at = λ w h. h }

  pub found_object-Keeps : (o : Option Row) → Keeps P (found_object o)
  found_object-Keeps none = raise-Keeps _
  found_object-Keeps (some r) = pure-Keeps _

  pub get_registration_agent-Keeps : Keeps P get_registration_agent
  unfolding get_registration_agent get_registration_wampagent
  get_registration_agent-Keeps =
      bind-Keeps get_registration_wampagent _ (record { at = λ w h. h }) found_object-Keeps

  module _ (conf : ApiConf) where
    pub find_marker-Keeps :
        (f : Value → Action Row) (m : Option String)
        → ((v : Value) → Keeps P (f v))
        → Keeps P (find_marker conf f m)
    unfolding find_marker
    find_marker-Keeps f none kf = pure-Keeps none
    find_marker-Keeps f (some m) kf = search (keeps_rules, load-Keeps, kf)

    pub get_page-Keeps :
        (f : Value → Action Row) (ks : List String) (q : Query)
        → ((v : Value) → Keeps P (f v))
        → Keeps P (get_page conf f ks q)
    unfolding get_page
    get_page-Keeps f ks q kf = search (keeps_rules, find_marker-Keeps) depth 40

    pub show_list-Keeps :
        (k : Kind) (fs : Option (List String)) (l : Option ℕ) (a b : String) (os : List Object)
        → Keeps P (show_list conf k fs l a b os)
    unfolding show_list
    show_list-Keeps k fs l a b os = search (keeps_rules) depth 40

    pub show-Keeps :
        (k : Kind) (fs : Option (List String)) (o : Object) → Keeps P (show conf k fs o)
    unfolding show
    show-Keeps k fs o = search (keeps_rules)

    pub agent_address-Keeps : (v : Value) (ip : Option String) → Keeps P (agent_address conf v ip)
    unfolding agent_address get_wampagent_object
    agent_address-Keeps v (some ip) = pure-Keeps ip
    agent_address-Keeps v none =
        search (keeps_rules, load-Keeps, get_wampagent-Keeps, remember_ip-Keeps) depth 40

    pub wstun_ip-Keeps : (v : Option Value) → Keeps P (wstun_ip conf v)
    unfolding wstun_ip
    wstun_ip-Keeps none = bind-Keeps _ _ (lift-Keeps _) (λ ip. pure-Keeps _)
    wstun_ip-Keeps (some Value.null) = pure-Keeps []
    wstun_ip-Keeps (some v) =
        bind-Keeps _ _
          (record { at = λ w h. (agent_address-Keeps v (cached_ip v w.agent_ips)).at w h })
          (λ ip. pure-Keeps _)

    pub session_of-Keeps : (v : Value) → Keeps P (session_of conf v)
    unfolding session_of get_session_by_board_uuid
    session_of-Keeps v = search (keeps_rules, load-Keeps, one-Keeps) depth 40

    pub locations_of-Keeps : (v : Value) → Keeps P (locations_of conf v)
    unfolding locations_of list_locations get_board_id_by_uuid get_locations_by_board_id
    locations_of-Keeps v =
        search (keeps_rules, get_board_by_uuid-Keeps, paginate_query-Keeps) depth 40

    pub config_of-Keeps : (r : Row) → Keeps P (config_of conf r)
    unfolding config_of
    config_of-Keeps r = search (keeps_rules, get_registration_agent-Keeps)

    pub convert_board-Keeps :
        (fs : Option (List String)) (o : Object) → Keeps P (convert_board conf fs o)
    unfolding convert_board
    convert_board-Keeps fs o =
        search (keeps_rules, session_of-Keeps, locations_of-Keeps, config_of-Keeps, wstun_ip-Keeps)
          depth 40

    pub convert_boards-Keeps :
        (fs : Option (List String)) (os : List Object) → Keeps P (convert_boards conf fs os)
    unfolding convert_boards
    convert_boards-Keeps fs [] = pure-Keeps []
    convert_boards-Keeps fs (o ∷ os) =
        bind-Keeps (convert_board conf fs o) _ (convert_board-Keeps fs o) (λ b.
          bind-Keeps (convert_boards conf fs os) _ (convert_boards-Keeps fs os)
            (λ bs. pure-Keeps _))

    pub show_board-Keeps : (fs : Option (List String)) (o : Object) → Keeps P (show_board conf fs o)
    unfolding show_board
    show_board-Keeps fs o = search (bind-Keeps, pure-Keeps, convert_board-Keeps)

    pub show_boards-Keeps :
        (fs : Option (List String)) (l : Option ℕ) (a b : String) (os : List Object)
        → Keeps P (show_boards conf fs l a b os)
    unfolding show_boards
    show_boards-Keeps fs l a b os = search (keeps_rules, convert_boards-Keeps) depth 40
