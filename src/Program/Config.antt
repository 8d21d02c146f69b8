-- ===== src/Program/Config.antt =====
-- The configuration of src/config.rs, as it is when `toml` has read it. A key that the file may leave
-- out has its default then: the empty list, `None`, `false`, or `default_cache_path`.
use dns_ligase.Prelude.{
  if◌then◌else◌, bytes_eq, [], ◌∷◌, Bytes, ℕ, Bool, List, Option, some, ◌++◌, none,
}
use dns_ligase.Dns.Message.{Ipv4Addr}
use dns_ligase.Text.Search.{codes}

pub record ServerConfig : Type 0 where
  pub listen_addr : Bytes
  pub listen_port : ℕ

pub record CacheConfig : Type 0 where
  pub path : Bytes

pub record LoggingConfig : Type 0 where
  pub queries : Bool

pub record UpstreamConfig : Type 0 where
  pub address : Ipv4Addr
  pub port : ℕ
  pub use_tcp : Bool

pub record BlocklistConfig : Type 0 where
  pub urls : List Bytes
  pub allowlist_urls : List Bytes
  pub regex_block_urls : List Bytes
  pub regex_allow_urls : List Bytes
  pub refresh_interval_secs : ℕ
  pub cache_ttl_secs : Option ℕ

pub record MatchingConfig : Type 0 where
  pub manual_block : List Bytes
  pub manual_allow : List Bytes
  pub regex_block : List Bytes
  pub regex_allow : List Bytes

pub record Config : Type 0 where
  pub server : ServerConfig
  pub upstream : UpstreamConfig
  pub blocklists : BlocklistConfig
  pub matching : MatchingConfig
  pub cache : CacheConfig
  pub logging : LoggingConfig

-- `load_config` in src/main.rs reads the file that follows the first `--config` among the arguments, or
-- that `DNS_LIGASE_CONFIG` names, or `config.toml`.
abbrev first : List Bytes → Option Bytes
first [] = none
first (value ∷ rest) = some value

after_flag : List Bytes → Option Bytes
after_flag [] = none
after_flag (arg ∷ args) =
    let rest = after_flag args in if bytes_eq arg (codes "--config") then first args else rest

unfoldable pub config_path : (args : List Bytes) → (variable : Option Bytes) → Bytes
unfolding after_flag
config_path args variable = elim (after_flag args) [
  | some path ↦ path
  | none ↦ elim variable [ some path ↦ path | none ↦ codes "config.toml" ]
]

-- `read_to_string` and `toml` are arguments.
unfoldable pub load_config :
    (read_to_string : Bytes → Option Bytes)
    → (from_str : Bytes → Option Config) → List Bytes
    → Option Bytes
    → Option Config
unfolding config_path
load_config read_to_string from_str args variable =
    elim (read_to_string (config_path args variable)) [ some text ↦ from_str text | none ↦ none ]

-- From `$HOME`, if it is set and a text.
unfoldable pub default_cache_path : Option Bytes → Bytes
default_cache_path (some home) = home ++ codes "/.cache/dns-ligase/cache.json"
default_cache_path none = codes "cache.json"

-- `CacheConfig::default`
abbrev pub default_cache : Option Bytes → CacheConfig
unfolding default_cache_path
default_cache home = record { path = default_cache_path home }
