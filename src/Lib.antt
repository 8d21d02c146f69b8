-- ===== src/Lib.antt =====
-- dns-ligase: a DNS forwarder that blocks names. It parses a client's query, checks the name
-- against the rules of its blocklists, and answers NXDOMAIN or asks the upstream resolver; answers
-- are checked for CNAME targets that are blocked. Lists are downloaded, cached on disk and parsed
-- into rules; each decision is logged to the journal, where the `stats` subcommand reads it.
--
-- Where what is modelled, with the code's names kept:
-- * Prelude, Text, Io: numbers, bytes and byte strings, the methods of `str` that the program
--   calls, and `io::Error`. A text is its list of UTF-8 bytes, a word a number below a power of two.
--   A result is `ok`, `err` or `fault`; a fault is a panic, or a loop that outlives its fuel.
-- * Dns (src/dns.rs): Reader is the cursor, Name `parse_name` and `serialize_name`, Records
--   headers, questions and resource records, Message `DnsMessage`. The loop of `parse_name` runs on
--   fuel of 66 turns for each byte of the message and 66 more: between two of at most 64 jumps its
--   position grows, so that it is enough.
-- * Blocklist (src/blocklist.rs): Rules is `Blocklist`, Merge what joins two of them, Check
--   `suffix_match` and `check`, Pieces and Lines the parsers of list lines and bodies. The regex
--   crate and the Unicode table of `to_lowercase` are the parameter `External`, with the laws that
--   are relied on. Unordered takes rules up to the order in which they are stored.
-- * Upstream (src/upstream.rs): the socket pools of `Upstream`, its queries and `resolve_a`. The
--   operating system is the parameter `Net`; what other tasks make of a pool while a query runs is
--   the parameter `others`. Replies says what is relied on of datagram sockets.
-- * Forwarder (src/upstream.rs): Response builds and changes messages, Scene holds what surrounds
--   a query, Handler is `handle_udp_query` and one turn of the loop of `handle_tcp_query`, Stream
--   that loop and `write_tcp_message` over a client's stream, which is the parameter `ClientStream`;
--   its fuel of one turn for each byte that the client sends, and one more, is enough. Run has the
--   loops of `UdpForwarder::run`. A handler is a function from a packet to its effects in order and
--   its result. The rules in force are given separately for the question and for each target in an
--   answer, since a reload may come between.
-- * Cache (src/blocklist.rs): file names, and `CachedLists` over a directory of bodies, which is
--   the parameter `Disk`; the clock is an argument. Saved adds the file of the metadata. Fetch has
--   the downloads, with the crates `url` and `reqwest` as the parameter `Web`.
-- * Program (src/config.rs, src/main.rs): Config is the configuration, Build `create_blocklist`,
--   Service what the refresh task and the SIGHUP handler share with the query handlers, and Changes
--   what the latter logs. A step of Service is what a task does between two points at which others
--   may run; the clock, the downloads and the configurations that can be read are the environment's.
--   Serving puts a query's handler into a run of Service.
-- * Journal (src/journald.rs): the entry that `log_query` sends.
-- * Stats (src/stats.rs and `run_stats_cmd` of src/main.rs): Calendar has the dates, Entries the
--   parser of entries, with `serde_json` as a parameter, and the filters, Flags the arguments,
--   Summary what is counted and printed; the order in which a `HashMap` is gone through is a
--   parameter. A timestamp is not negative and stays below 2 ^ 64, so that no sum of the calendar
--   wraps around.
-- Tests holds runs, and the theorems at concrete inputs.
--
-- Parts interact as in the code: Forwarder calls Dns, Blocklist and (through Scene) Upstream and
-- Journal; Upstream calls Dns to resolve the hosts of lists; Program builds the rules of Blocklist
-- from a configuration and from the bodies that Cache serves, and puts them in force for
-- Forwarder.
--
-- Not modelled: how the handlers that `UdpForwarder::run` spawns interleave with each other, paths
-- and the JSON of the cache's metadata, and the layout of what `stats` prints.
pub mod Prelude
pub mod Text
pub mod Io
pub mod Dns
pub mod Blocklist
pub mod Upstream
pub mod Stats
pub mod Journal
pub mod Cache
pub mod Forwarder
pub mod Program
pub mod Tests
