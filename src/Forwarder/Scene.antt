-- ===== src/Forwarder/Scene.antt =====
-- What a query handler of src/upstream.rs does and what surrounds it. A handler is a function to its
-- effects, in order, and how it returns. What the upstream pool answers and whether a write to the
-- client succeeds are arguments, and so are the blocklists in force when the question and when the
-- targets in the reply are checked: a reload may come between.
use dns_ligase.Blocklist.Rules.{External, Blocklist}
use dns_ligase.Io.{Result, ok, err, fault}
use dns_ligase.Prelude.{ℕ, Bool, List, [], ◌∷◌, Bytes}

-- The decision that a query log entry records.
pub data Action : Type 0 where
  was_blocked was_allowed was_forwarded : Action

pub data Effect : Type 0 where
  -- `socket.send_to(bytes, client)` or `write_tcp_message(client_stream, bytes)`
  send : Bytes → Effect
  -- `upstream.udp_query(bytes)` and `upstream.tcp_query(bytes)`
  ask_udp : Bytes → Effect
  ask_tcp : Bytes → Effect
  -- `journald::log_query(client, domain, qtype, action, rule)`
  log_query : (domain qtype : Bytes) → Action → (rule : Bytes) → Effect

-- What the handler did, and how it returned.
pub record Outcome : Type 0 where
  pub did : List Effect
  pub result : Result (Unit {0})

abbrev pub returns : Result (Unit {0}) → Outcome
returns r = record { did = []; result = r }

abbrev pub after : Effect → Outcome → Outcome
after e o = record o { did = e ∷ o.did }

-- `e?` for an effect whose result is known.
abbrev pub try : Effect → Result (Unit {0}) → Outcome → Outcome
try e (ok _) next = after e next
try e (err x) next = after e (returns (err x))
try e (fault x) next = after e (returns (fault x))

-- The surroundings of one query.
pub record Scene (x : External) : Type 0 where
  pub question_rules : Blocklist x.Regex
  -- the rules in force when the answer with this index is checked
  pub target_rules : ℕ → Blocklist x.Regex
  pub logs_queries : Bool
  pub udp_answer : Bytes → Result Bytes
  pub tcp_answer : Bytes → Result Bytes
  pub client_write : Bytes → Result (Unit {0})

-- The messages that went to the client, in order.
abbrev pub sent : List Effect → List Bytes
sent [] = []
sent (send b ∷ es) = b ∷ sent es
sent (ask_udp b ∷ es) = sent es
sent (ask_tcp b ∷ es) = sent es
sent (log_query d t a r ∷ es) = sent es

-- The queries that went to the upstream resolver, in order.
abbrev pub asked : List Effect → List Bytes
asked [] = []
asked (send b ∷ es) = asked es
asked (ask_udp b ∷ es) = b ∷ asked es
asked (ask_tcp b ∷ es) = b ∷ asked es
asked (log_query d t a r ∷ es) = asked es
