-- ===== src/Program/Service/Whole.antt =====
-- The rules of src/main.rs are those of one configuration, whatever its tasks do in between.
use dns_ligase.Program.Service.Current.{
  BuiltFrom, BuildsFor, reloading-eq, refreshing-eq, BuildStep-BuildsFor,
}
use dns_ligase.Blocklist.Rules.{External, Blocklist}
use dns_ligase.Prelude.{◌≡◌, refl, arith, inl, inr, ◌⊎◌, List, Bytes}
use mathlib.Core.Path.{subst}
use dns_ligase.Program.Service.{
  Building, publishing, refreshing, reloading, Service, BuildStep, Step, refresh_wakes,
  refresh_builds, refresh_publishes, refresh_dies, reload_configures, reload_switches, reload_swaps,
  reload_builds, reload_publishes, reload_dies, Config, start, Stored, Reach, here, next,
}
use dns_ligase.Cache.Store.{Disk}
use dns_ligase.Io.{ok}
use dns_ligase.Program.Build.{list_rules}

module _ (x : External) (disk : Disk) (Loads : Config → Type 0) (first : Config) where
  -- The program has started with it, or may have loaded it since.
  abbrev pub WasLoaded : Config → Type 0
  WasLoaded cfg = (cfg ≡ first) ⊎ Loads cfg

  -- The task builds rules for such a configuration.
  abbrev pub Builds : Building x → Type 0
  Builds b = (cfg : Config) × WasLoaded cfg × BuildsFor x cfg b

  pub record Whole (s : Service x disk) : Type 0 where
    pub config_loaded : WasLoaded s.config
    pub rules_whole : (cfg : Config) × WasLoaded cfg × BuiltFrom x cfg s.rules
    pub refresh_whole : (b : Building x) → s.refresh ≡ refreshing b → Builds b
    pub reload_whole : (b : Building x) → s.reload ≡ reloading b → Builds b

  BuildStep-Builds :
      {b : Building x} {stored : Stored disk} {b' : Building x} {stored' : Stored disk}
      → BuildStep x disk b stored b' stored'
      → Builds b
      → Builds b'
  BuildStep-Builds m (cfg, l, h) = (cfg, l, BuildStep-BuildsFor x disk cfg m h)

  Step-Whole : (s t : Service x disk) → Step x disk Loads s t → Whole s → Whole t
  Step-Whole s t (refresh_wakes e u) h = rw u (record {
    config_loaded = h.config_loaded;
    rules_whole = h.rules_whole;
    refresh_whole = λ b k.
        (s.config, h.config_loaded, subst (λ b. BuildsFor x s.config b) (refreshing-eq x k) refl);
    reload_whole = h.reload_whole;
  })
  Step-Whole s t (refresh_builds b b' stored' e m u) h = rw u (record {
    config_loaded = h.config_loaded;
    rules_whole = h.rules_whole;
    refresh_whole =
        λ c k. subst (λ c. Builds c) (refreshing-eq x k) (BuildStep-Builds m (h.refresh_whole b e));
    reload_whole = h.reload_whole;
  })
  Step-Whole s t (refresh_publishes cfg bl e u) h = rw u (record {
    config_loaded = h.config_loaded;
    rules_whole = h.refresh_whole (publishing cfg bl) e;
    refresh_whole = λ c k. ground arith;
    reload_whole = h.reload_whole;
  })
  Step-Whole s t (refresh_dies b stored' e m u) h = rw u (record {
    config_loaded = h.config_loaded;
    rules_whole = h.rules_whole;
    refresh_whole = λ c k. ground arith;
    reload_whole = h.reload_whole;
  })
  Step-Whole s t (reload_configures cfg e l u) h = rw u (record {
    config_loaded = inr l;
    rules_whole = h.rules_whole;
    refresh_whole = h.refresh_whole;
    reload_whole = λ b k. ground arith;
  })
  Step-Whole s t (reload_switches e u) h = rw u (record {
    config_loaded = h.config_loaded;
    rules_whole = h.rules_whole;
    refresh_whole = h.refresh_whole;
    reload_whole = λ b k. ground arith;
  })
  Step-Whole s t (reload_swaps e u) h = rw u (record {
    config_loaded = h.config_loaded;
    rules_whole = h.rules_whole;
    refresh_whole = h.refresh_whole;
    reload_whole = λ b k.
        (s.config, h.config_loaded, subst (λ b. BuildsFor x s.config b) (reloading-eq x k) refl);
  })
  Step-Whole s t (reload_builds b b' stored' e m u) h = rw u (record {
    config_loaded = h.config_loaded;
    rules_whole = h.rules_whole;
    refresh_whole = h.refresh_whole;
    reload_whole =
        λ c k. subst (λ c. Builds c) (reloading-eq x k) (BuildStep-Builds m (h.reload_whole b e));
  })
  Step-Whole s t (reload_publishes cfg bl e u) h = rw u (record {
    config_loaded = h.config_loaded;
    rules_whole = h.reload_whole (publishing cfg bl) e;
    refresh_whole = h.refresh_whole;
    reload_whole = λ c k. ground arith;
  })
  Step-Whole s t (reload_dies b stored' e m u) h = rw u (record {
    config_loaded = h.config_loaded;
    rules_whole = h.rules_whole;
    refresh_whole = h.refresh_whole;
    reload_whole = λ c k. ground arith;
  })

  run-Whole : (s t : Service x disk) → Whole s → Reach x disk Loads s t → Whole t
  run-Whole s t h here = h
  run-Whole s t h (next {t = u} r st) = Step-Whole u t st (run-Whole s u h r)

  -- From a start with the rules of its configuration, and whatever the tasks do after it, in any
  -- order: the rules in force are exactly those of one configuration, with some bodies of lists,
  -- and so are the rules that a task is about to publish; and this configuration and the one in force
  -- are each the one at the start or one that can be loaded.
  pub Reach-Whole :
      (bodies : List (Bytes × Bytes)) (bl : Blocklist x.Regex) (stored : Stored disk)
      (t : Service x disk)
      → list_rules x first bodies ≡ ok bl
      → Reach x disk Loads (start x disk first bl stored) t
      → Whole t
  unfolding start
  Reach-Whole bodies bl stored t built r =
      run-Whole (start x disk first bl stored) t
        (record {
          config_loaded = inl refl;
          rules_whole = (first, inl refl, (bodies, built));
          refresh_whole = λ b k. ground arith;
          reload_whole = λ b k. ground arith;
        })
        r
