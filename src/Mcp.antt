-- ===== src/Mcp.antt =====
-- internal/mcp/client/manager.go and client.go: the manager of connections to MCP servers. The
-- transports (a process, or HTTP) are arguments: whether a connection opens, and answers the
-- handshake, and whether closing reports an error. A connection is a number, and `opened` are those
-- that are open.
pub mod Connections
pub mod Sound
use ykt_aisaas.Base.{
  ℕ, suc, ◌+◌, ◌==◌, Bool, true, false, not, ◌&&◌, ◌||◌, Option, none, some, List, [], ◌∷◌, Text,
  codes, text_eq, length, filter, map, Assoc, lookup, put, remove, if◌then◌else◌,
}

pub record ServerConfig : Type 0 where
  pub name : Text
  pub transport : Text
  pub command : List Text
  pub url : Text
  pub headers : List (Text × Text)
  pub timeout : ℕ

-- baseClient
pub record Client : Type 0 where
  pub cfg : ServerConfig
  pub conn : ℕ

pub data McpError : Type 0 where
  name_required already_registered unsupported_transport not_connected not_found close_errors :
      McpError

-- How a server behaves while it is registered.
pub record Peer : Type 0 where
  pub connects : Bool
  pub answers_initialize : Bool

pub record Manager : Type 0 where
  pub clients : Assoc Client
  pub configs : Assoc ServerConfig
  pub opened : List ℕ
  pub next : ℕ

-- NewManager
abbrev pub new_manager : Manager
new_manager = record { clients = []; configs = []; opened = []; next = 0 }

-- NewClient
unfoldable pub new_client : ServerConfig → ℕ → Option Client
new_client cfg conn =
    if text_eq cfg.transport (codes "stdio") || text_eq cfg.transport (codes "sse")
    then some (record { cfg = cfg; conn = conn })
    else none

-- close of a connection, which frees it also where it reports an error
unfoldable pub release : ℕ → List ℕ → List ℕ
release n opened = filter (λ m. not (m == n)) opened

-- Connect: a connection whose handshake fails is closed.
unfoldable pub connect : Peer → Client → List ℕ → Bool × List ℕ
unfolding release
connect peer c opened =
    if peer.connects
    then (if peer.answers_initialize
        then (true, c.conn ∷ opened)
        else (false, release c.conn (c.conn ∷ opened)))
    else (false, opened)

unfoldable pub connected : Text → Client → Bool × List ℕ → Manager → Option McpError × Manager
unfolding release
connected name c (true, opened) m = (
  none,
  record m {
    clients = put name c m.clients;
    configs = put name c.cfg m.configs;
    opened = opened;
    next = suc m.next;
  },
)
connected name c (false, opened) m =
    (some not_connected, record m { opened = release c.conn opened; next = suc m.next })

unfoldable pub register_client : Peer → Text → Option Client → Manager → Option McpError × Manager
unfolding connected connect
register_client peer name none m = (some unsupported_transport, m)
register_client peer name (some c) m = connected name c (connect peer c m.opened) m

unfoldable pub register_new :
    Peer → ServerConfig → Option Client → Manager → Option McpError × Manager
unfolding register_client new_client
register_new peer cfg (some c) m = (some already_registered, m)
register_new peer cfg none m = register_client peer cfg.name (new_client cfg m.next) m

-- Register
unfoldable pub register : Peer → ServerConfig → Manager → Option McpError × Manager
unfolding register_new
register peer cfg m =
    if text_eq cfg.name []
    then (some name_required, m)
    else register_new peer cfg (lookup cfg.name m.clients) m

-- Get
unfoldable pub get : Text → Manager → Option Client
get name m = lookup name m.clients

unfoldable pub unregister_client : Text → Option Client → Manager → Option McpError × Manager
unfolding release
unregister_client name none m = (some not_found, m)
unregister_client name (some c) m = (
  none,
  record m {
    clients = remove name m.clients;
    configs = remove name m.configs;
    opened = release c.conn m.opened;
  },
)

-- Unregister: an error of the close is only logged.
unfoldable pub unregister : Text → Manager → Option McpError × Manager
unfolding unregister_client
unregister name m = unregister_client name (lookup name m.clients) m

-- The loop of Close, with the names whose close reports an error
unfoldable pub close_clients : (Text → Bool) → Assoc Client → List ℕ → List Text × List ℕ
unfolding release
close_clients closes [] opened = ([], opened)
close_clients closes ((name, c) ∷ clients) opened =
    let (errors, rest) = close_clients closes clients (release c.conn opened) in
    (if closes name then errors else name ∷ errors, rest)

abbrev pub close_error : List Text → Option McpError
close_error [] = none
close_error (name ∷ errors) = some close_errors

-- Close
unfoldable pub close : (Text → Bool) → Manager → Option McpError × Manager
unfolding close_clients
close closes m =
    let (errors, opened) = close_clients closes m.clients m.opened in
    (close_error errors, record m { clients = []; configs = []; opened = opened })

-- ServerCount, ListServers and GetConfig
unfoldable pub server_count : Manager → ℕ
server_count m = length m.clients

names_of : Assoc Client → List Text
names_of [] = []
names_of ((name, c) ∷ clients) = name ∷ names_of clients

unfoldable pub list_servers : Manager → List Text
unfolding names_of
list_servers m = names_of m.clients

unfoldable pub get_config : Text → Manager → Option ServerConfig
get_config name m = lookup name m.configs

-- A call of the manager.
pub data Call : Type 0 where
  register_call : Peer → ServerConfig → Call
  unregister_call : Text → Call
  close_call : (Text → Bool) → Call

unfoldable pub perform : Call → Manager → Manager
unfolding register unregister close
perform (register_call peer cfg) m = (register peer cfg m).1
perform (unregister_call name) m = (unregister name m).1
perform (close_call closes) m = (close closes m).1

unfoldable pub perform_all : List Call → Manager → Manager
unfolding perform
perform_all [] m = m
perform_all (c ∷ cs) m = perform_all cs (perform c m)
