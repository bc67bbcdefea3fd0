-- ===== src/Action.antt =====
-- How the source runs: a method acts on the world (the tables, the module globals, the replies
-- that remote calls will get) and returns a value or raises. What was done before a raise stays
-- done, except inside `with session.begin()`.
-- Exceptions are those of iotronic/common/exception.py that the modelled code raises, with the
-- keyword argument that names the object, and those of Python and of the libraries.
pub mod Keeps
use stack4things_openstack_i.Base.{
  ℕ, ◌%◌, String, Option, none, some, List, [], ◌∷◌, length, get_elem?,
}
use stack4things_openstack_i.Db.Schema.{Value, Column, Tables}

pub data Exception : Type 0 where
  board_not_found plugin_not_found service_not_found fleet_not_found port_not_found :
      Value → Exception
  webservice_not_found enabled_webservice_not_found request_not_found : Value → Exception
  location_not_found session_not_found conductor_not_found wampagent_not_found : Value → Exception
  exposed_service_not_found board_not_connected board_already_exists duplicate_code :
      Value → Exception
  duplicate_name plugin_already_exists service_already_exists service_already_exposed :
      Value → Exception
  fleet_already_exists webservice_already_exists enabled_webservice_already_exists :
      Value → Exception
  conductor_already_registered wampagent_already_registered invalid_identity : Value → Exception
  board_invalid_status invalid_board_action invalid_plugin_action : Value → Exception
  invalid_service_action board_name_already_exists dns_webservice_already_exists : Value → Exception
  error_execution_on_board : Value → Exception
  injection_plugin_not_found result_not_found not_enough_port_for_service : Exception
  invalid_parameter_value invalid : Exception
  db_duplicate_entry : List Column → Exception
  db_reference_error no_result_found multiple_results_found messaging_timeout : Exception
  type_error value_error index_error key_error attribute_error unbound_local_error : Exception
  network_error neutron_client_exception : Exception
  missing_parameter_value client_side_error http_not_found policy_not_registered : Exception
  no_such_method db_error : Exception
  http_forbidden : String → Exception
  invalid_uuid_or_name : Value → Exception

pub data Result (A : Type 0) : Type 0 where
  ok : A → Result A
  raised : Exception → Result A

-- wamp/wampmessage.py
pub record WampMessage : Type 0 where
  pub message : Value
  pub result : String
  pub req_id : Option String

-- What a remote call brings back: a message, or an exception.
pub data Reply : Type 0 where
  replies : WampMessage → Reply
  fails : Exception → Reply

-- cctx = wamp_agent_client.prepare(server=…); cctx.call(ctx, method, …)
pub record Call : Type 0 where
  pub server : Value
  pub method : String
  pub args : List Value

pub record World : Type 0 where
  pub tables : Tables
  -- SERVICE_PORT_LIST and Port of conductor/endpoints.py
  pub free_ports : List ℕ
  pub vif_ports : List ℕ
  -- the clock, how many uuids were generated, and the random numbers to come
  pub now : ℕ
  pub uuids : ℕ
  pub draws : List ℕ
  -- the outcomes of the remote calls to come, and the calls made, newest first
  pub inbox : List Reply
  pub calls : List Call
  -- cache_agent_ip of api/controllers/v1/board.py
  pub agent_ips : List (Value × String)

abbrev pub Action : Type 0 → Type 0
Action A = World → Result A × World

abbrev pub continue : {A B : Type 0} → Result A → (A → Action B) → Action B
continue (ok a) f w = f a w
continue (raised e) f w = (raised e, w)

infixl 5 ◌>>=◌ ◌>>◌
abbrev pub ◌>>=◌ : {A B : Type 0} → Action A → (A → Action B) → Action B
◌>>=◌ m f w = let (r, v) = m w in continue r f v

abbrev pub ◌>>◌ : {A B : Type 0} → Action A → Action B → Action B
m >> n = m >>= λ _. n

abbrev pub pure : {A : Type 0} → A → Action A
pure a w = (ok a, w)

abbrev pub raise : {A : Type 0} → Exception → Action A
raise e w = (raised e, w)

abbrev pub lift : {A : Type 0} → Result A → Action A
lift r w = (r, w)

-- try: m except …: the handler decides by the exception.
abbrev pub rescue : {A : Type 0} → Result A → (Exception → Action A) → Action A
rescue (ok a) h w = (ok a, w)
rescue (raised e) h w = h e w

abbrev pub catch : {A : Type 0} → Action A → (Exception → Action A) → Action A
catch m h w = let (r, v) = m w in rescue r h v

-- `except NoResultFound: raise e`
abbrev pub no_result : {A : Type 0} → Exception → Exception → Action A
no_result e Exception.no_result_found = raise e
no_result e other = raise other

abbrev pub or_not_found : {A : Type 0} → Action A → Exception → Action A
or_not_found m e = catch m (no_result e)

-- `try: … except exception: return exception`, where `exception` names a module: when an exception
-- arrives, Python refuses the module as a class to catch and raises TypeError.
abbrev pub except_module : {A : Type 0} → Action A → Action A
except_module m = catch m (λ _. raise Exception.type_error)

-- `with session.begin()`: a raise rolls the tables back.
abbrev pub roll_back : {A : Type 0} → Tables → Result A → World → Result A × World
roll_back t (ok a) w = (ok a, w)
roll_back t (raised e) w = (raised e, record w { tables = t })

abbrev pub transaction : {A : Type 0} → Action A → Action A
transaction m w = let (r, v) = m w in roll_back w.tables r v

-- One remote call: logged, and answered by the next reply. With no reply left it times out.
abbrev pub answer : List Reply → Call → Action WampMessage
answer [] c w = (raised Exception.messaging_timeout, record w { calls = c ∷ w.calls })
answer (Reply.replies m ∷ rest) c w = (ok m, record w { inbox = rest; calls = c ∷ w.calls })
answer (Reply.fails e ∷ rest) c w = (raised e, record w { inbox = rest; calls = c ∷ w.calls })

unfoldable pub call : Call → Action WampMessage
call c w = answer w.inbox c w

-- A call of another service: what comes back is the message of the reply.
unfoldable pub ask : Call → Action Value
unfolding call
ask c = do m ← call c; pure m.message

-- random.choice: any element; IndexError on an empty sequence.
abbrev pub pick : {A : Type 0} → List A → List ℕ → Option A
pick xs [] = get_elem? xs 0
pick xs (d ∷ ds) = get_elem? xs (d % length xs)

abbrev pub drop_draw : List ℕ → List ℕ
drop_draw [] = []
drop_draw (d ∷ ds) = ds

abbrev or_raise : {A : Type 0} → Option A → Exception → Result A
or_raise none e = raised e
or_raise (some a) e = ok a

unfoldable pub choice : {A : Type 0} → List A → Action A
choice xs w =
    (or_raise (pick xs w.draws) Exception.index_error, record w { draws = drop_draw w.draws })
