-- ===== src/Mcp/Sound.antt =====
-- What the calls of the manager keep, and what a registration that fails leaves.
use mathlib.Core.Option
use ykt_aisaas.Base.{
  ℕ, suc, ◌≡◌, ◌≢◌, refl, sym, ap, ◌∙◌, ◌⊎◌, Bool, true, false, ◌||◌, inl, inr, Bool-cases, Option,
  none, some, List, [], ◌∷◌, Text, codes, text_eq, Assoc, lookup, put, remove, lookup-put,
  lookup-remove, put-IsDistinct, remove-IsDistinct, if◌then◌else◌, arith,
}
use ykt_aisaas.Mcp.{
  ServerConfig, Client, McpError, Peer, Manager, new_client, release, connect, connected,
  register_client, register_new, register, unregister_client, unregister, close_clients, close,
  Call, register_call, unregister_call, close_call, perform, perform_all,
}
use ykt_aisaas.Mcp.Connections.{
  conns_of, IsDescending, IsSound, IsDescending-weaken, release-fresh, release-first, remove-absent,
  conns_of-remove, release-IsDescending,
}

-- A registration that ends well adds its server to all three.
added-IsSound :
    (name : Text) (c : Client) (m : Manager)
    → lookup name m.clients ≡ none
    → c.conn ≡ m.next
    → IsSound m
    → IsSound (connected name c (true, c.conn ∷ m.opened) m).1
unfolding connected
added-IsSound name c m absent number s = record {
  distinct_clients = put-IsDistinct name c m.clients s.distinct_clients;
  distinct_configs = put-IsDistinct name c.cfg m.configs s.distinct_configs;
  same_configs = same;
  no_others = ap (λ l. c.conn ∷ l) s.no_others ∙ sym conns;
  numbered = rw conns (omega (arith, number), rw number s.numbered);
}
  where
    conns : conns_of (put name c m.clients) ≡ c.conn ∷ conns_of m.clients
    conns = unfold put in ap (λ l. c.conn ∷ conns_of l) (remove-absent name m.clients absent)

    same :
        (j : Text)
        → lookup j (put name c.cfg m.configs)
          ≡ Option.map (λ (q : Client). q.cfg) (lookup j (put name c m.clients))
    same j = elim (Bool-cases (text_eq j name)) [
      | inl here ↦ rw (lookup-put j name c m.clients, lookup-put j name c.cfg m.configs, here) refl
      | inr other ↦
          rw (lookup-put j name c m.clients, lookup-put j name c.cfg m.configs, other)
            (s.same_configs j)
    ]

-- What a failed registration changes: no more than the next number.
abbrev pub IsUnchanged : Manager → Manager → Type 0
IsUnchanged m m' = (m'.clients ≡ m.clients) × (m'.configs ≡ m.configs) × (m'.opened ≡ m.opened)

unchanged-IsSound : (m : Manager) → IsSound m → IsSound (record m { next = suc m.next })
unchanged-IsSound m s = record {
  distinct_clients = s.distinct_clients;
  distinct_configs = s.distinct_configs;
  same_configs = s.same_configs;
  no_others = s.no_others;
  numbered = IsDescending-weaken m.next (suc m.next) (conns_of m.clients) (omega arith) s.numbered;
}

-- The connection that failed is not among the open ones, opened and closed or not.
connect_failed :
    (peer : Peer) (c : Client) (m : Manager)
    → c.conn ≡ m.next
    → IsSound m
    → (connect peer c m.opened ≡ (true, c.conn ∷ m.opened))
      ⊎ ((connect peer c m.opened ≡ (false, m.opened)) × (release c.conn m.opened ≡ m.opened))
unfolding connect
connect_failed peer c m number s = elim (Bool-cases peer.connects) [
  | inl opens ↦ elim (Bool-cases peer.answers_initialize) [
    | inl answers ↦ inl (simp (opens, answers) refl)
    | inr silent ↦ inr (simp (opens, silent) (ap (λ l. (false, l)) first), fresh)
  ]
  | inr refuses ↦ inr (simp (refuses) refl, fresh)
]
  where
    below : IsDescending c.conn m.opened
    below = rw (s.no_others, number) s.numbered

    fresh : release c.conn m.opened ≡ m.opened
    fresh = release-fresh c.conn c.conn m.opened (omega arith) below

    first : release c.conn (c.conn ∷ m.opened) ≡ m.opened
    first = release-first c.conn m.opened below

-- Sound still, and an error leaves everything as it was.
abbrev pub Keeps : Manager → Option McpError × Manager → Type 0
Keeps m r = IsSound r.1 × ((r.0 ≢ none) → IsUnchanged m r.1)

failed-Keeps :
    (name : Text) (c : Client) (m : Manager)
    → release c.conn m.opened ≡ m.opened
    → IsSound m
    → Keeps m (connected name c (false, m.opened) m)
unfolding connected
failed-Keeps name c m fresh s = (rw fresh (unchanged-IsSound m s), λ e. (refl, refl, fresh))

register_client-Keeps :
    (peer : Peer) (name : Text) (client : Option Client) (m : Manager)
    → lookup name m.clients ≡ none
    → ((c : Client) → client ≡ some c → c.conn ≡ m.next)
    → IsSound m
    → Keeps m (register_client peer name client m)
unfolding register_client
register_client-Keeps peer name none m absent number s = (s, λ e. (refl, refl, refl))
register_client-Keeps peer name (some c) m absent number s =
    elim (connect_failed peer c m (number c refl) s) [
      | inl opens ↦ rw opens (
        added-IsSound name c m absent (number c refl) s,
        λ e. absurd (e (unfold connected in refl)),
      )
      | inr (fails, fresh) ↦ rw fails (failed-Keeps name c m fresh s)
    ]

new_client_conn : (cfg : ServerConfig) (n : ℕ) (c : Client) → new_client cfg n ≡ some c → c.conn ≡ n
unfolding new_client
new_client_conn cfg n c h =
    known (text_eq cfg.transport (codes "stdio") || text_eq cfg.transport (codes "sse")) h
  where
    known :
        (b : Bool)
        → (if b then some (record { cfg = cfg; conn = n }) else none) ≡ some c
        → c.conn ≡ n
    known true h = sym (conn_of (some (record { cfg = cfg; conn = n })) (some c) h)
      where
        conn_or : Option Client → ℕ
        conn_or none = n
        conn_or (some q) = q.conn

        conn_of : (a b : Option Client) → a ≡ b → conn_or a ≡ conn_or b
        conn_of a b e = ap conn_or e
    known false h = absurd (ground (arith, h))

register_new-Keeps :
    (peer : Peer) (cfg : ServerConfig) (found : Option Client) (m : Manager)
    → lookup cfg.name m.clients ≡ found
    → IsSound m
    → Keeps m (register_new peer cfg found m)
unfolding register_new
register_new-Keeps peer cfg (some c) m looked s = (s, λ e. (refl, refl, refl))
register_new-Keeps peer cfg none m looked s =
    register_client-Keeps peer cfg.name (new_client cfg m.next) m looked
      (λ c h. new_client_conn cfg m.next c h) s

-- A registration keeps the manager sound: its two maps have the same names with the same
-- configurations, and the open connections are those of its clients. One that reports an error, for
-- whatever reason, leaves maps and connections as they were.
pub register-Keeps :
    (peer : Peer) (cfg : ServerConfig) (m : Manager) → IsSound m → Keeps m (register peer cfg m)
unfolding register
register-Keeps peer cfg m s = elim (Bool-cases (text_eq cfg.name [])) [
  | inl empty ↦ rw empty (s, λ e. (refl, refl, refl))
  | inr named ↦ rw named (register_new-Keeps peer cfg (lookup cfg.name m.clients) m refl s)
]

unregister_client-IsSound :
    (name : Text) (found : Option Client) (m : Manager)
    → lookup name m.clients ≡ found
    → IsSound m
    → IsSound (unregister_client name found m).1
unfolding unregister_client
unregister_client-IsSound name none m looked s = s
unregister_client-IsSound name (some c) m looked s = record {
  distinct_clients = remove-IsDistinct name m.clients s.distinct_clients;
  distinct_configs = remove-IsDistinct name m.configs s.distinct_configs;
  same_configs = same;
  no_others = ap (release c.conn) s.no_others ∙ sym conns;
  numbered = rw conns (release-IsDescending m.next c.conn (conns_of m.clients) s.numbered);
}
  where
    conns : conns_of (remove name m.clients) ≡ release c.conn (conns_of m.clients)
    conns = conns_of-remove m.next name m.clients c looked s.distinct_clients s.numbered

    same :
        (j : Text)
        → lookup j (remove name m.configs)
          ≡ Option.map (λ (q : Client). q.cfg) (lookup j (remove name m.clients))
    same j = elim (Bool-cases (text_eq j name)) [
      | inl here ↦ rw (lookup-remove j name m.clients, lookup-remove j name m.configs, here) refl
      | inr other ↦
          rw (lookup-remove j name m.clients, lookup-remove j name m.configs, other)
            (s.same_configs j)
    ]

closed_all :
    (closes : Text → Bool) (n : ℕ) (clients : Assoc Client)
    → IsDescending n (conns_of clients)
    → (close_clients closes clients (conns_of clients)).1 ≡ []
unfolding close_clients
closed_all closes n [] d = refl
closed_all closes n ((name, c) ∷ clients) d =
    rw (release-first c.conn (conns_of clients) d.1) (closed_all closes c.conn clients d.1)

close-IsSound : (closes : Text → Bool) (m : Manager) → IsSound m → IsSound (close closes m).1
unfolding close
close-IsSound closes m s = record {
  distinct_clients = tt;
  distinct_configs = tt;
  same_configs = λ name. unfold lookup in refl;
  no_others = rw s.no_others (closed_all closes m.next m.clients s.numbered);
  numbered = tt;
}

perform-IsSound : (c : Call) (m : Manager) → IsSound m → IsSound (perform c m)
unfolding perform
perform-IsSound (register_call peer cfg) m s = (register-Keeps peer cfg m s).0
perform-IsSound (unregister_call name) m s =
    unfold unregister in unregister_client-IsSound name (lookup name m.clients) m refl s
perform-IsSound (close_call closes) m s = close-IsSound closes m s

-- Under any calls that register, unregister and close, whichever servers fail to connect, to answer
-- or to close, the manager's two maps have the same names with the same configurations, and the open
-- connections are exactly those of its clients: none is leaked.
pub perform_all-IsSound : (cs : List Call) (m : Manager) → IsSound m → IsSound (perform_all cs m)
unfolding perform_all
perform_all-IsSound [] m s = s
perform_all-IsSound (c ∷ cs) m s = perform_all-IsSound cs (perform c m) (perform-IsSound c m s)
