-- ===== src/Wamp/AllowList.antt =====
-- iotronic/wamp/agent.py: the allow list file of the services' tunnels, and the redirect lines of
-- iotronic/wamp/proxies/nginx.py. The file holds a JSON list of nodes; `none` is a file that cannot
-- be read, which read_allowlist reports as None, so that the methods fail and write nothing.
pub mod Entries
use stack4things_openstack_i.Base.{
  Bool, List, Option, String, [], any, concat, if◌then◌else◌, none, some, str_eq, suc, zero, ℕ,
  ◌&&◌, ◌++◌, ◌∷◌,
}

pub record Node : Type 0 where
  pub client : String
  pub port : String

unfoldable pub same_node : Node → Node → Bool
same_node a b = str_eq a.client b.client && str_eq a.port b.port

-- new_node in allow_list
unfoldable pub is_listed : Node → List Node → Bool
unfolding same_node
is_listed n ns = any (same_node n) ns

-- allow_list.remove(new_node): the first one
unfoldable pub drop_node : Node → List Node → List Node
unfolding same_node
drop_node n [] = []
drop_node n (m ∷ ns) = if same_node n m then ns else m ∷ drop_node n ns

abbrev pub AllowFile : Type 0
AllowFile = Option (List Node)

unfoldable pub addin_allowlist : Node → AllowFile → AllowFile
unfolding is_listed
addin_allowlist n none = none
addin_allowlist n (some ns) = if is_listed n ns then some ns else some (ns ++ n ∷ [])

unfoldable pub remove_from_allowlist : Node → AllowFile → AllowFile
unfolding is_listed drop_node
remove_from_allowlist n none = none
remove_from_allowlist n (some ns) = if is_listed n ns then some (drop_node n ns) else some ns

-- nginx.py: the server file as its lines
abbrev pub has_line : String → List String → Bool
has_line l ls = any (str_eq l) ls

-- lines.insert(i, line): at the end where the list is shorter
unfoldable pub insert_at : ℕ → String → List String → List String
insert_at zero l ls = l ∷ ls
insert_at (suc i) l [] = l ∷ []
insert_at (suc i) l (m ∷ ls) = m ∷ insert_at i l ls

unfoldable pub insert_entry : String → List String → List String
unfolding insert_at
insert_entry l ls = if has_line l ls then ls else insert_at 4 l ls

unfoldable pub drop_line : String → List String → List String
drop_line l [] = []
drop_line l (m ∷ ls) = if str_eq l m then ls else m ∷ drop_line l ls

unfoldable pub remove_entry : String → List String → List String
unfolding drop_line
remove_entry = drop_line

-- the redirect of one host name to https; no name, or an empty one, is the board's own
unfoldable pub string_redirect : String → String → Option String → String
string_redirect board zone dns = redirect_to (host_name (named dns))
  where
    named : Option String → Option String
    named none = none
    named (some d) = if str_eq d "" then none else some d

    host_name : Option String → String
    host_name none = concat board (concat "." zone)
    host_name (some d) = concat d (concat "." (concat board (concat "." zone)))

    redirect_to : String → String
    redirect_to host =
        concat "if ($host = " (concat host ") { return 301 https://$host$request_uri; }\n")
