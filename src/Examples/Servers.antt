-- ===== src/Examples/Servers.antt =====
-- The theorems on MCP servers: one that registers, one that does not answer, and one that leaves.
use ykt_aisaas.Base.{refl, true, false, List, [], ◌∷◌, codes, lookup}
use ykt_aisaas.Mcp.{
  ServerConfig, Peer, Call, register_call, unregister_call, close_call, new_manager, register,
  perform_all,
}
use ykt_aisaas.Mcp.Connections.{IsSound}
use ykt_aisaas.Mcp.Sound.{Keeps, register-Keeps, perform_all-IsSound}

abbrev weather : ServerConfig
weather = record {
  name = codes "weather";
  transport = codes "stdio";
  command = codes "python3" ∷ [];
  url = [];
  headers = [];
  timeout = 30;
}

abbrev good : Peer
good = record { connects = true; answers_initialize = true }

abbrev silent : Peer
silent = record { connects = true; answers_initialize = false }

abbrev calls : List Call
calls =
    register_call good weather
    ∷ register_call silent (record weather { name = codes "maps" })
    ∷ register_call good (record weather { name = codes "news"; transport = codes "sse" })
    ∷ unregister_call (codes "weather")
    ∷ close_call (λ name. false)
    ∷ []

new_manager-IsSound : IsSound new_manager
unfolding lookup
new_manager-IsSound = record {
  distinct_clients = tt;
  distinct_configs = tt;
  same_configs = λ name. refl;
  no_others = refl;
  numbered = tt;
}

perform_all-IsSound_example : IsSound (perform_all calls new_manager)
perform_all-IsSound_example = perform_all-IsSound calls new_manager new_manager-IsSound

register-Keeps_example : Keeps new_manager (register silent weather new_manager)
register-Keeps_example = register-Keeps silent weather new_manager new_manager-IsSound
