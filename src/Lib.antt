-- ===== src/Lib.antt =====
-- Verification of iotronic, the service that manages boards for OpenStack: the REST API, the
-- conductor, the wamp agent, the objects and the database layer. Paths are from the repository's
-- root.
--
-- How the parts interact. A handler of the REST API (iotronic/api/controllers/v1) asks the policy
-- (iotronic/common/policy.py), reads objects, and sends messages (iotronic/conductor/rpcapi.py) to
-- the conductor, whose endpoints (iotronic/conductor/endpoints.py) load objects (iotronic/objects),
-- which read and write rows by the methods of Connection (iotronic/db/sqlalchemy/api.py). To act on
-- a board the conductor calls the board's wamp agent (iotronic/wamp/agent.py), and boards themselves call the functions of
-- iotronic/wamp/functions.py when they connect, leave and report results.
--
-- Files, and the code that they model.
--   Base (and below)     lists, options, integers and texts over native numbers
--   Action               how a method runs: World -> Result x World. The world holds the tables,
--                        the module globals SERVICE_PORT_LIST and Port, the clock, the count of
--                        generated uuids, the random draws to come, the replies that remote calls
--                        will get, and the calls made. `catch`, `transaction` and `except_module`
--                        are try, session.begin() and `except exception` (which names a module).
--                        Action/Keeps and Db/Keeping have the rules for invariants of the tables.
--   Db/Schema            iotronic/db/sqlalchemy/models.py: tables, columns, defaults, unique sets
--   Db/Engine            SQLAlchemy and the database as an interface: select, insert, update,
--                        delete, pagination, uuids, and the laws that api.py relies on. Text
--                        compares by its characters.
--   Db/Query, Filters    add_identity_filter, _paginate_query, the _add_..._filters, and the steps
--                        that the methods share
--   Db/Boards, Sessions, Agents, Plugins, Services, Fleets, Requests
--                        the methods of Connection, under their own names
--   Objects              IotronicObject: a row and the set of changed fields; get, save, create
--   Objects/Kinds        plugins, services, web services, fleets, ports, locations
--   Objects/Registry     conductors and wamp agents
--   Wamp/Sessions        connection, board_on_leave, update_sessions of wamp/functions.py
--   Wamp/AllowList       addin_allowlist and remove_from_allowlist of wamp/agent.py, insert_entry,
--                        remove_entry and string_redirect of wamp/proxies/nginx.py
--   Conductor/Version    versionCompare
--   Conductor/Requests   new_req, new_res, execute_on_board, manage_result; notify_result
--   Conductor/Ports      random_public_port, and the two ports of enable_webservice
--   Conductor/Services   action_service, restore_services_on_board
--   Conductor/Boards     create_board, update_board, destroy_board, action_board
--   Conductor/Plugins    the endpoints for plugins, services and fleets, inject_plugin, remove_plugin
--                        and action_plugin
--   Conductor/Dns        iotronic/common/designate.py, and the two functions that make DNS records
--   Conductor/Webservices (and Enabling, Disabling)
--                        create, destroy, enable, disable and renew web services
--   Conductor/Neutron    the functions of iotronic/common/neutron.py that the conductor calls
--   Conductor/Vifs       create_port_on_board and remove_VIF_from_board
--   Conductor/Provisioner
--                        iotronic/conductor/provisioner.py: the configuration of a board
--   Conductor/Registration
--                        registration and get_best_agent
--   Conductor/Calls      all these handlers as the steps of one relation
--   Conductor/RpcApi     iotronic/conductor/rpcapi.py: the messages, and the endpoint of each
--   Objects/Listing      the class methods `list` of iotronic/objects
--   Common/Policy        iotronic/common/policy.py: the rules and authorize; Strangers has what the
--                        default rules refuse
--   Api/Utils            iotronic/api/controllers/v1/utils.py, and the context of a request
--   Api/Resources        the classes of the API, their links and collections (base.py, link.py,
--                        v1/collection.py, and the classes at the head of each controller's file);
--                        Resources/Boards is the Board of v1/board.py, Resources/Kinds the other
--                        classes, Resources/Collections the page of a listing
--   Api/Listing          what the controllers share: the page, the answer, the call of the conductor
--   Api/Boards           BoardsController; Boards/Parts (and below) has the controllers of a board's
--                        plugins, services, web services and ports
--   Api/Plugins, Services, Fleets, Webservices, Ports, Requests
--                        the controllers of v1/plugin.py and so on
--   Api/Router           v1/__init__.py: a request goes to its handler. Routes has the requests,
--                        Serving, Sessions, Reconnecting and Strangers what holds of all of them
--   .../Keeping          what the handlers of a part leave as it is in the table of sessions
--   Common/HashRing      HashRing of iotronic/common/hash_ring.py; MD5 is a parameter
--   Samples              an engine in memory that meets the laws, and runs of the theorems on it
--
-- Fuel. The search loop of HashRing.get_hosts runs on fuel, the number of partitions: one round of
-- the ring, which is enough where a host is left to find. The loop of create_port_on_board that
-- looks for a number that is not in Port runs on fuel as well: one step more than Port is long is
-- enough where the number is free, and there is no bound where the numbers drawn go on clashing.
-- Running out is an outcome of its own in both. Everything else is structural.
--
-- Abstractions. A remote call is answered by the next reply of the world, and no other handler
-- runs while it waits. Logging is left out. Sets are walked in the order of a list. The created_at
-- and updated_at columns are written only where the source itself writes them. Sessions are looked up by
-- the text of their number. A value that a board brings when it connects, or that the API was sent,
-- goes through the type of its field (str_or_none, dict_or_none, field_type), with its errors;
-- elsewhere a value that is written to a field is of the field's type already. ast.literal_eval and str, for dictionaries, are parameters of
-- Engine.
--
-- Neutron, Designate and the resolver are answered by the replies of the world too; a JSON list in an
-- answer is read as the document of its elements by position.
--
-- The REST API. The configuration, the rendering of timestamps, the text of wsme's Unset, the
-- outcome of asking the database for an agent whose hostname is Unset, and what the
-- endpoints need are parameters of a handler (ApiConf). The body of a request is the list of the
-- attributes that it sets, as wsme has read it by their types. The cache of the addresses of agents is
-- a part of the world. The enforcer of oslo.policy is an interface, and what it does with the default
-- rules a hypothesis (IsDefault), which Samples/Policies meets. A message to the conductor is handled
-- at once, and its result comes back as it is, where oslo.messaging writes and reads it.
--
-- Not modelled: what pecan and wsme do before and after a handler (finding it, reading and checking
-- arguments, writing the answer), the version headers, the application and its hooks, the controller
-- of v1/result.py, which no path reaches; the set-up of the remote clients and of Keystone sessions;
-- processes, threads, options and migrations; the copy of oslo-incubator under
-- iotronic/openstack/common.
pub mod Base
pub mod Db
pub mod Action
pub mod Objects
pub mod Wamp
pub mod Conductor
pub mod Common
pub mod Samples
pub mod Api
