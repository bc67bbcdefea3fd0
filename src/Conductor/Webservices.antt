-- ===== src/Conductor/Webservices.antt =====
-- iotronic/conductor/endpoints.py: web services that boards expose (create_webservice,
-- destroy_webservice, renew_webservice). Enabling and disabling stand in the children.
pub mod Enabling
pub mod Disabling
pub mod Keeping
use Prim.Native.String.{String}
use stack4things_openstack_i.Action.{
  Action, Exception, Result, call, except_module, lift, ok, pure, raise, raised, ◌>>=◌, ◌>>◌,
}
use stack4things_openstack_i.Base.{
  List, Option, [], concat, filter, if◌then◌else◌, none, not, some, true, ◌&&◌, ◌∷◌,
}
use stack4things_openstack_i.Conductor.Dns.{create_record_dns_webservice, delete_record, dotted}
use stack4things_openstack_i.Conductor.Requests.{
  completed, execute_on_board, manage_result, new_req, new_res,
}
use stack4things_openstack_i.Db.Boards.{get_board_by_uuid}
use stack4things_openstack_i.Db.Engine.{Engine, whole}
use stack4things_openstack_i.Db.Filters.{Filters}
use stack4things_openstack_i.Db.Fleets.{get_webservice_by_uuid, get_webservice_list}
use stack4things_openstack_i.Db.Schema.{Column, Row, Value, eq_value, is_null}
use stack4things_openstack_i.Objects.{
  Object, from_db_object, get_board, is_online, is_webservice_enabled, load, save_request,
  save_result, set_attr, text_of,
}
use stack4things_openstack_i.Objects.Kinds.{
  create_webservice_object, destroy_webservice_object, get_enabled_webservice,
}

-- What a method gives back: an object or a plain value, or an exception that it returns.
pub data Response : Type 0 where
  entity : Object → Response
  plain : Value → Response
  returned : Exception → Response

-- str(v), for a column of texts
abbrev pub shown : Value → Value
shown Value.null = Value.str "None"
shown v = v

-- list_dns[:-1]
unfoldable drop_last : String → String
drop_last String.[] = String.[]
drop_last (String.◌∷◌ c String.[]) = String.[]
drop_last (String.◌∷◌ c (String.◌∷◌ d s)) = String.◌∷◌ c (drop_last (String.◌∷◌ d s))

-- a + "." + b, of values that may not be texts
abbrev join_texts : Result String → Result String → Result String
join_texts (ok d) (ok z) = ok (dotted d z)
join_texts (ok d) (raised e) = raised e
join_texts (raised e) r = raised e

-- en_webservice.dns + "." + en_webservice.zone
unfoldable pub domain_of : Object → Result String
unfolding text_of
domain_of en = join_texts (text_of (en.row Column.dns)) (text_of (en.row Column.zone))

-- one more name in the list of DNS names: name + "." + domain + ","
unfoldable add_name : String → String → Row → Result String
unfolding text_of
add_name domain names r = elim (text_of (r Column.name)) [
  | ok n ↦ ok (concat names (concat (dotted n domain) ","))
  | raised e ↦ raised e
]

unfoldable add_names : String → String → List Row → Result String
unfolding add_name
add_names domain names [] = ok names
add_names domain names (r ∷ rs) = elim (add_name domain names r) [
  | ok more ↦ add_names domain more rs
  | raised e ↦ raised e
]

-- the rows with another name
unfoldable other_names : Value → List Row → List Row
unfolding filter eq_value
other_names name = filter (λ r. not (eq_value (r Column.name) name))

module _ ⦃E : Engine⦄ where
  -- a request that ends at once with a warning
  unfoldable pub warn : Object → String → String → Action Object
  unfolding new_req new_res save_result save_request
  warn board action text = do
    mreq ← new_req board action Value.null 0
    res ← new_res board (mreq.row Column.uuid)
    save_result (
        set_attr (set_attr res Column.result (Value.str "WARNING")) Column.message (Value.str text))
    save_request (set_attr mreq Column.status completed)
    pure mreq

  -- a method of the board's wamp agent
  unfoldable pub agent_call : Object → String → List Value → Action (Unit {0})
  unfolding call
  agent_call board method args = do
    call (record { server = board.row Column.agent; method = method; args = args })
    pure tt

  -- if not board.is_online(): raise
  unfoldable pub want_online : Object → Action (Unit {0})
  unfolding is_online
  want_online board =
      if is_online board
      then pure tt
      else raise (Exception.board_not_connected (board.row Column.uuid))

  -- if board.agent == None: raise
  unfoldable pub want_agent : Object → Action (Unit {0})
  unfolding is_null
  want_agent board =
      if is_null (board.row Column.agent)
      then raise (Exception.board_invalid_status (board.row Column.uuid))
      else pure tt

  -- the first web service of the board with this name; each one's board is looked up on the way
  unfoldable pub find_webservice : Object → List Row → Action (Option Object)
  unfolding get_board eq_value
  find_webservice new [] = pure none
  find_webservice new (webs ∷ rest) = do
    get_board (webs Column.board_uuid)
    (let later = find_webservice new rest in
        if eq_value (shown (new.row Column.board_uuid)) (shown (webs Column.board_uuid))
          && eq_value (new.row Column.name) (shown (webs Column.name))
        then pure (some (from_db_object webs))
        else later)

  abbrev board_filter : Value → Filters
  board_filter board_uuid = ("board_uuid", board_uuid) ∷ []

  -- the record, the call on the board, the redirect, and then the row
  unfoldable pub expose_webservice : Object → Object → List Row → Action Response
  unfolding get_enabled_webservice domain_of text_of create_record_dns_webservice add_names
      execute_on_board agent_call create_webservice_object manage_result
  expose_webservice board new list_webs = do
    en ← get_enabled_webservice (new.row Column.board_uuid)
    domain ← lift (domain_of en)
    name ← lift (text_of (new.row Column.name))
    dns ← lift (text_of (en.row Column.dns))
    zone ← lift (text_of (en.row Column.zone))
    create_record_dns_webservice board name dns zone
    names ← lift (add_names domain (concat domain ",") list_webs)
    res ← except_module (
        execute_on_board (new.row Column.board_uuid) "ExposeWebservice"
          (Value.str domain
            ∷ Value.str (dotted name domain)
            ∷ new.row Column.port
            ∷ Value.str (concat names (dotted name domain))
            ∷ [])
          Value.null)
    agent_call board "add_redirect"
        (en.row Column.dns ∷ en.row Column.zone ∷ new.row Column.name ∷ [])
    agent_call board "reload_proxy" []
    created ← create_webservice_object new
    manage_result res (board.row Column.uuid)
    pure (entity created)

  -- a web service that is there is not exposed again: a warning is noted
  unfoldable pub expose_unless : Object → Object → List Row → Option Object → Action Response
  unfolding expose_webservice warn
  expose_unless board new list_webs none = expose_webservice board new list_webs
  expose_unless board new list_webs (some webs) = do
    warn board "expose_webservice" "Webservice already exposed for this device!"
    pure (entity webs)

  unfoldable pub create_webservice_endpoint : Object → Action Response
  unfolding load get_board_by_uuid want_online get_webservice_list find_webservice expose_unless
  create_webservice_endpoint new = do
    board ← load (get_board_by_uuid (new.row Column.board_uuid))
    want_online board
    list_webs ← get_webservice_list (board_filter (new.row Column.board_uuid)) whole
    found ← find_webservice new list_webs
    expose_unless board new list_webs found

  -- an online board is told, and its agent drops the redirect
  unfoldable pub unexpose_webservice : Object → Object → Object → Action (Unit {0})
  unfolding domain_of text_of get_webservice_list add_names other_names drop_last execute_on_board
      want_agent agent_call
  unexpose_webservice board wbsrv en = do
    domain ← lift (domain_of en)
    name ← lift (text_of (wbsrv.row Column.name))
    list_webs ← get_webservice_list (board_filter (wbsrv.row Column.board_uuid)) whole
    names ←
        lift (add_names domain (concat domain ",") (other_names (wbsrv.row Column.name) list_webs))
    except_module (
        execute_on_board (wbsrv.row Column.board_uuid) "UnexposeWebservice"
          (Value.str (dotted name domain) ∷ Value.str (drop_last names) ∷ []) Value.null)
    want_agent board
    agent_call board "remove_redirect"
        (en.row Column.dns ∷ en.row Column.zone ∷ wbsrv.row Column.name ∷ [])
    agent_call board "reload_proxy" []

  unfoldable pub destroy_webservice_endpoint : Value → Action (Unit {0})
  unfolding load get_webservice_by_uuid get_board_by_uuid get_enabled_webservice is_online
      unexpose_webservice destroy_webservice_object text_of delete_record
  destroy_webservice_endpoint webservice_id = do
    wbsrv ← load (get_webservice_by_uuid webservice_id)
    board ← load (get_board_by_uuid (wbsrv.row Column.board_uuid))
    en ← get_enabled_webservice (wbsrv.row Column.board_uuid)
    (if is_online board then unexpose_webservice board wbsrv en else pure tt)
    destroy_webservice_object wbsrv
    name ← lift (text_of (wbsrv.row Column.name))
    dns ← lift (text_of (en.row Column.dns))
    delete_record (Value.str (dotted name dns)) (en.row Column.zone)

  unfoldable pub renew_webservice : Value → Action Response
  unfolding load get_board_by_uuid want_online want_agent is_webservice_enabled new_req
      execute_on_board warn manage_result
  renew_webservice board_uuid = do
    board ← load (get_board_by_uuid board_uuid)
    want_online board
    want_agent board
    enabled ← is_webservice_enabled (board.row Column.uuid)
    (if enabled
        then (do
          mreq ← new_req board "RenewWebservice" Value.null 1
          res ← execute_on_board (board.row Column.uuid) "RenewWebservice" [] (mreq.row Column.uuid)
          manage_result res (board.row Column.uuid)
          pure (plain (Value.bool true)))
        else (do
          warn board "RenewWebservice" "Webservice module not enabled for this device!"
          raise (Exception.enabled_webservice_not_found (board.row Column.uuid))))
