-- ===== src/Program/Service.antt =====
-- The tasks of src/main.rs that share state with the query handlers: `spawn_refresh_task` and
-- `spawn_sighup_handler`. A step is what a task does between two points at which others may run: where
-- it takes a lock anew, sleeps, or waits for the network. The clock, the downloads, and whether
-- saving works are chosen by the environment.
pub mod Current
pub mod Settled
pub mod Alone
pub mod Stale
pub mod Whole
use dns_ligase.Blocklist.Rules.{External, Blocklist}
use dns_ligase.Cache.Store.{Disk, DownloadResult, FetchJob}
use dns_ligase.Dns.Message.{Ipv4Addr}
use dns_ligase.Io.{Result, ok, fault, Fault, err}
use dns_ligase.Prelude.{
  ℕ, Bool, List, ◌++◌, Bytes, ◌≡◌, ◌≢◌, zero, suc, true, false, [], ◌∷◌, Option, none, some, refl,
  arith, inl, inr,
}
use dns_ligase.Program.Build.{Stored, plan_lists, merge_lists, list_rules, finish_lists}
use dns_ligase.Program.Config.{Config}

-- Address and port of the upstream resolver. The source prints these two of a configuration and
-- parses them as a `SocketAddr`, which gives them back.
abbrev pub Addr : Type 0
Addr = Ipv4Addr × ℕ

abbrev pub upstream_addr : Config → Addr
upstream_addr cfg = (cfg.upstream.address, cfg.upstream.port)

module _ (x : External) where
  -- How far a task is in `create_blocklist`, and then with its result.
  pub data Building : Type 0 where
    planning : Config → Building
    downloading : Config → (fresh : List (Bytes × Bytes)) → List FetchJob → Building
    pruning : Config → Blocklist x.Regex → Building
    publishing : Config → Blocklist x.Regex → Building

  pub data Refresh : Type 0 where
    sleeping : Refresh
    refreshing : Building → Refresh
    refresh_panicked : Refresh

  -- The handler of SIGHUP has read a new configuration in all phases but the first.
  pub data Reload : Type 0 where
    waiting : Reload
    -- the configuration is in force
    configured : Reload
    -- and the switch for the query log
    switched : Reload
    -- and the pool of the upstream resolver
    reloading : Building → Reload
    reload_panicked : Reload

  module _ (disk : Disk) where
    pub record Service : Type 0 where
      pub config : Config
      pub logs_queries : Bool
      pub pool : Addr
      pub rules : Blocklist x.Regex
      pub stored : Stored disk
      pub refresh : Refresh
      pub reload : Reload

    -- `main` when it begins to serve: with its configuration, and with the rules and the contents of
    -- the cache that `create_blocklist` has left.
    unfoldable pub start : Config → Blocklist x.Regex → Stored disk → Service
    start cfg bl stored = record {
      config = cfg;
      logs_queries = cfg.logging.queries;
      pool = upstream_addr cfg;
      rules = bl;
      stored = stored;
      refresh = sleeping;
      reload = waiting;
    }

    -- One part of `create_blocklist`, on what the cache stores.
    pub data BuildStep : Building → Stored disk → Building → Stored disk → Type 0 where
      plans :
          (cfg : Config) (now : ℕ) (stored : Stored disk)
          → BuildStep
              (planning cfg)
              stored
              (downloading cfg
                (plan_lists disk cfg now stored).0
                (plan_lists disk cfg now stored).1)
              stored
      merges :
          (cfg : Config) (fresh : List (Bytes × Bytes)) (jobs : List FetchJob) (now : ℕ)
          (downloaded : List (Bytes × DownloadResult)) (stored : Stored disk)
          (bl : Blocklist x.Regex)
          → list_rules x cfg (fresh ++ (merge_lists disk now downloaded stored).0) ≡ ok bl
          → BuildStep
              (downloading cfg fresh jobs)
              stored
              (pruning cfg bl)
              (merge_lists disk now downloaded stored).1
      prunes :
          (cfg : Config) (bl : Blocklist x.Regex) (saved : Result (Unit {0})) (stored : Stored disk)
          → BuildStep
              (pruning cfg bl)
              stored
              (publishing cfg bl)
              (finish_lists disk cfg saved stored)

    -- A panic in a parser, which ends the task.
    pub data BuildPanic : Building → Stored disk → Stored disk → Type 0 where
      panics :
          (cfg : Config) (fresh : List (Bytes × Bytes)) (jobs : List FetchJob) (now : ℕ)
          (downloaded : List (Bytes × DownloadResult)) (stored : Stored disk) (f : Fault)
          → list_rules x cfg (fresh ++ (merge_lists disk now downloaded stored).0) ≡ fault f
          → BuildPanic
              (downloading cfg fresh jobs)
              stored
              (merge_lists disk now downloaded stored).1

    -- The configurations that `load_config` may return.
    module _ (Loads : Config → Type 0) where
      pub data Step (s : Service) (t : Service) : Type 0 where
        refresh_wakes :
            s.refresh ≡ sleeping
            → t ≡ record s { refresh = refreshing (planning s.config) }
            → Step s t
        refresh_builds :
            (b b' : Building) (stored' : Stored disk)
            → s.refresh ≡ refreshing b
            → BuildStep b s.stored b' stored'
            → t ≡ record s { refresh = refreshing b'; stored = stored' }
            → Step s t
        refresh_publishes :
            (cfg : Config) (bl : Blocklist x.Regex)
            → s.refresh ≡ refreshing (publishing cfg bl)
            → t ≡ record s { refresh = sleeping; rules = bl }
            → Step s t
        refresh_dies :
            (b : Building) (stored' : Stored disk)
            → s.refresh ≡ refreshing b
            → BuildPanic b s.stored stored'
            → t ≡ record s { refresh = refresh_panicked; stored = stored' }
            → Step s t
        -- `*config.write() = new_config`
        reload_configures :
            (cfg : Config)
            → s.reload ≡ waiting
            → Loads cfg
            → t ≡ record s { reload = configured; config = cfg }
            → Step s t
        -- `*log_queries.write() = cfg.logging.queries`
        reload_switches :
            s.reload ≡ configured
            → t ≡ record s { reload = switched; logs_queries = s.config.logging.queries }
            → Step s t
        -- A new pool if the address has changed; then the configuration is cloned.
        reload_swaps :
            s.reload ≡ switched
            → t ≡ record s { reload = reloading (planning s.config); pool = upstream_addr s.config }
            → Step s t
        reload_builds :
            (b b' : Building) (stored' : Stored disk)
            → s.reload ≡ reloading b
            → BuildStep b s.stored b' stored'
            → t ≡ record s { reload = reloading b'; stored = stored' }
            → Step s t
        reload_publishes :
            (cfg : Config) (bl : Blocklist x.Regex)
            → s.reload ≡ reloading (publishing cfg bl)
            → t ≡ record s { reload = waiting; rules = bl }
            → Step s t
        reload_dies :
            (b : Building) (stored' : Stored disk)
            → s.reload ≡ reloading b
            → BuildPanic b s.stored stored'
            → t ≡ record s { reload = reload_panicked; stored = stored' }
            → Step s t

      pub data Reach (s : Service) : Service → Type 0 where
        here : Reach s s
        next : {t u : Service} → Reach s t → Step t u → Reach s u
