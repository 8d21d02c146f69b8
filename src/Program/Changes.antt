-- ===== src/Program/Changes.antt =====
-- What the SIGHUP handler of src/main.rs logs when it has read a new configuration: a list with one
-- entry for each line. The order within a difference of two sets is not the program's.
pub mod Complete
use dns_ligase.Blocklist.Rules.{HashSet, contains, insert}
use dns_ligase.Dns.Message.{Ipv4Addr}
use dns_ligase.Prelude.{
  ℕ, Bool, true, false, not, ◌&&◌, ◌==◌, if◌then◌else◌, List, [], ◌∷◌, ◌++◌, map, keep_if, Bytes,
  bytes_eq,
}
use dns_ligase.Program.Config.{Config}

-- The lists of the configuration that are compared as sets.
pub data Kind : Type 0 where
  blocklist allowlist regex_blocklist regex_allowlist : Kind
  manual_block manual_allow regex_block regex_allow : Kind

pub data Change : Type 0 where
  upstream_changed listen_changed interval_changed cache_path_changed logging_changed : Change
  added removed : Kind → Bytes → Change

-- `entries.iter().collect::<HashSet<_>>()`
unfoldable pub collect : List Bytes → HashSet
unfolding insert
collect [] = []
collect (entry ∷ entries) = insert entry (collect entries)

-- `&a - &b`
unfoldable pub difference : HashSet → HashSet → HashSet
unfolding contains
difference a b = keep_if (λ entry. not (contains b entry)) a

unfoldable pub compared : Kind → (old new : List Bytes) → List Change
unfolding collect difference
compared kind old new =
    map (added kind) (difference (collect new) (collect old))
    ++ map (removed kind) (difference (collect old) (collect new))

abbrev pub unless : Bool → Change → List Change
unless same change = if same then [] else change ∷ []

unfoldable pub address_eq : Ipv4Addr → Ipv4Addr → Bool
address_eq (a, b, c, d) (a', b', c', d') = (a == a') && ((b == b') && ((c == c') && (d == d')))

unfoldable pub bool_eq : Bool → Bool → Bool
bool_eq true b = b
bool_eq false b = not b

unfoldable pub join_changes : List (List Change) → List Change
join_changes [] = []
join_changes (changes ∷ rest) = changes ++ join_changes rest

-- The lines that each part of the configuration gives rise to.
unfoldable pub part_changes : (old new : Config) → List (List Change)
unfolding compared address_eq bool_eq
part_changes old new =
    unless
      (address_eq old.upstream.address new.upstream.address
        && (old.upstream.port == new.upstream.port))
      upstream_changed
    ∷ unless
        (bytes_eq old.server.listen_addr new.server.listen_addr
          && (old.server.listen_port == new.server.listen_port))
        listen_changed
    ∷ compared blocklist old.blocklists.urls new.blocklists.urls
    ∷ compared allowlist old.blocklists.allowlist_urls new.blocklists.allowlist_urls
    ∷ compared regex_blocklist old.blocklists.regex_block_urls new.blocklists.regex_block_urls
    ∷ compared regex_allowlist old.blocklists.regex_allow_urls new.blocklists.regex_allow_urls
    ∷ unless (old.blocklists.refresh_interval_secs == new.blocklists.refresh_interval_secs)
        interval_changed
    ∷ unless (bytes_eq old.cache.path new.cache.path) cache_path_changed
    ∷ unless (bool_eq old.logging.queries new.logging.queries) logging_changed
    ∷ compared manual_block old.matching.manual_block new.matching.manual_block
    ∷ compared manual_allow old.matching.manual_allow new.matching.manual_allow
    ∷ compared regex_block old.matching.regex_block new.matching.regex_block
    ∷ compared regex_allow old.matching.regex_allow new.matching.regex_allow
    ∷ []

unfoldable pub log_changes : (old new : Config) → List Change
unfolding part_changes join_changes
log_changes old new = join_changes (part_changes old new)
