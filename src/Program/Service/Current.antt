-- ===== src/Program/Service/Current.antt =====
-- What the shared state of src/main.rs has to do with the configuration in force.
use dns_ligase.Blocklist.Rules.{External, Blocklist}
use dns_ligase.Prelude.{List, ◌++◌, ◌≡◌, refl, arith, Bytes, ◌≢◌}
use mathlib.Core.Path.{subst}
use dns_ligase.Program.Service.{
  Building, planning, downloading, pruning, publishing, refreshing, configured, switched, reloading,
  Service, BuildStep, plans, merges, prunes, Step, refresh_wakes, refresh_builds, refresh_publishes,
  refresh_dies, reload_configures, reload_switches, reload_swaps, reload_builds, reload_publishes,
  reload_dies, Reach, here, next, upstream_addr, Config, Stored, start,
}
use dns_ligase.Io.{ok}
use dns_ligase.Cache.Store.{Disk}
use dns_ligase.Program.Build.{list_rules, merge_lists}

module _ (x : External) where
  -- The rules are those of this configuration, with some bodies of lists.
  abbrev pub BuiltFrom : Config → Blocklist x.Regex → Type 0
  BuiltFrom cfg bl = (bodies : List (Bytes × Bytes)) × (list_rules x cfg bodies ≡ ok bl)

  -- The task builds rules for this configuration.
  abbrev pub BuildsFor : Config → Building x → Type 0
  BuildsFor cfg (planning c) = c ≡ cfg
  BuildsFor cfg (downloading c fresh jobs) = c ≡ cfg
  BuildsFor cfg (pruning c bl) = BuiltFrom cfg bl
  BuildsFor cfg (publishing c bl) = BuiltFrom cfg bl

  pub reloading-eq : {a b : Building x} → reloading a ≡ reloading b → a ≡ b
  reloading-eq e = cc

  pub refreshing-eq : {a b : Building x} → refreshing a ≡ refreshing b → a ≡ b
  refreshing-eq e = cc

  module _ (disk : Disk) where
    pub BuildStep-BuildsFor :
        {b : Building x} {stored : Stored disk} {b' : Building x} {stored' : Stored disk}
        (cfg : Config)
        → BuildStep x disk b stored b' stored'
        → BuildsFor cfg b
        → BuildsFor cfg b'
    BuildStep-BuildsFor cfg (plans c now stored) h = h
    BuildStep-BuildsFor cfg (merges c fresh jobs now downloaded stored bl e) h = (
      fresh ++ (merge_lists disk now downloaded stored).0,
      subst (λ c. list_rules x c (fresh ++ (merge_lists disk now downloaded stored).0) ≡ ok bl) h e,
    )
    BuildStep-BuildsFor cfg (prunes c bl saved stored) h = h

    -- The switch of the query log and the pool follow the configuration, but for the moments in
    -- which a reload is about to set them.
    pub record Follows (s : Service x disk) : Type 0 where
      pub switch_follows : s.reload ≢ configured → s.logs_queries ≡ s.config.logging.queries
      pub pool_follows :
          s.reload ≢ configured → s.reload ≢ switched → s.pool ≡ upstream_addr s.config
      pub reload_current : (b : Building x) → s.reload ≡ reloading b → BuildsFor s.config b

    module _ (Loads : Config → Type 0) where
      Step-Follows : (s t : Service x disk) → Step x disk Loads s t → Follows s → Follows t
      Step-Follows s t (refresh_wakes e u) h = rw u (record {
        switch_follows = h.switch_follows;
        pool_follows = h.pool_follows;
        reload_current = h.reload_current;
      })
      Step-Follows s t (refresh_builds b b' stored' e m u) h = rw u (record {
        switch_follows = h.switch_follows;
        pool_follows = h.pool_follows;
        reload_current = h.reload_current;
      })
      Step-Follows s t (refresh_publishes cfg bl e u) h = rw u (record {
        switch_follows = h.switch_follows;
        pool_follows = h.pool_follows;
        reload_current = h.reload_current;
      })
      Step-Follows s t (refresh_dies b stored' e m u) h = rw u (record {
        switch_follows = h.switch_follows;
        pool_follows = h.pool_follows;
        reload_current = h.reload_current;
      })
      Step-Follows s t (reload_configures cfg e l u) h = rw u (record {
        switch_follows = λ k. absurd (k refl);
        pool_follows = λ k. absurd (k refl);
        reload_current = λ b k. ground arith;
      })
      Step-Follows s t (reload_switches e u) h = rw u (record {
        switch_follows = λ k. refl;
        pool_follows = λ k l. absurd (l refl);
        reload_current = λ b k. ground arith;
      })
      Step-Follows s t (reload_swaps e u) h = rw u (record {
        switch_follows = λ k. h.switch_follows (λ c. ground arith);
        pool_follows = λ k l. refl;
        reload_current = λ b k. subst (λ c. BuildsFor s.config c) (reloading-eq k) refl;
      })
      Step-Follows s t (reload_builds b b' stored' e m u) h = rw u (record {
        switch_follows = λ k. h.switch_follows (λ c. ground arith);
        pool_follows = λ k l. h.pool_follows (λ c. ground arith) (λ c. ground arith);
        reload_current = λ c k.
            subst (λ c. BuildsFor s.config c) (reloading-eq k)
              (BuildStep-BuildsFor s.config m (h.reload_current b e));
      })
      Step-Follows s t (reload_publishes cfg bl e u) h = rw u (record {
        switch_follows = λ k. h.switch_follows (λ c. ground arith);
        pool_follows = λ k l. h.pool_follows (λ c. ground arith) (λ c. ground arith);
        reload_current = λ c k. ground arith;
      })
      Step-Follows s t (reload_dies b stored' e m u) h = rw u (record {
        switch_follows = λ k. h.switch_follows (λ c. ground arith);
        pool_follows = λ k l. h.pool_follows (λ c. ground arith) (λ c. ground arith);
        reload_current = λ c k. ground arith;
      })

      run-Follows : (s t : Service x disk) → Follows s → Reach x disk Loads s t → Follows t
      run-Follows s t h here = h
      run-Follows s t h (next {t = u} r st) = Step-Follows u t st (run-Follows s u h r)

      start-Follows :
          (cfg : Config) (bl : Blocklist x.Regex) (stored : Stored disk)
          → Follows (start x disk cfg bl stored)
      unfolding start
      start-Follows cfg bl stored = record {
        switch_follows = λ k. refl;
        pool_follows = λ k l. refl;
        reload_current = λ b k. ground arith;
      }

      -- Whatever the tasks do after the start, in any order: outside of a reload, the query log is on
      -- just if the configuration in force says so, and the pool is for the resolver that it names; and
      -- what a reload builds or is about to publish are rules of the configuration in force.
      pub Reach-Follows :
          (cfg : Config) (bl : Blocklist x.Regex) (stored : Stored disk) (t : Service x disk)
          → Reach x disk Loads (start x disk cfg bl stored) t
          → Follows t
      Reach-Follows cfg bl stored t r =
          run-Follows (start x disk cfg bl stored) t (start-Follows cfg bl stored) r
