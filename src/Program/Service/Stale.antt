-- ===== src/Program/Service/Stale.antt =====
-- What a refresh and a reload of src/main.rs leave behind when they overlap.
use dns_ligase.Blocklist.Rules.{External, Blocklist}
use mathlib.Core.Path.{subst}
use dns_ligase.Prelude.{ap, ◌≡◌, refl}
use dns_ligase.Program.Service.Alone.{BuildRun, begins, proceeds, create_blocklist-BuildRun}
use dns_ligase.Program.Service.{
  Building, planning, publishing, sleeping, refreshing, waiting, reloading, Service, refresh_wakes,
  refresh_builds, refresh_publishes, reload_configures, reload_switches, reload_swaps,
  reload_builds, reload_publishes, Reach, here, next, upstream_addr, Config, Stored,
}
use dns_ligase.Io.{ok}
use dns_ligase.Cache.Store.{Disk}
use dns_ligase.Program.Build.{Fetching, create_blocklist}

module _ (x : External) (disk : Disk) (Loads : Config → Type 0) where
  pub join_runs :
      {s t u : Service x disk}
      → Reach x disk Loads s t
      → Reach x disk Loads t u
      → Reach x disk Loads s u
  join_runs r here = r
  join_runs r (next q st) = next (join_runs r q) st

  refresh_run :
      (s : Service x disk) (b : Building x) {b' : Building x} {stored' : Stored disk}
      → s.refresh ≡ refreshing b
      → BuildRun x disk b s.stored b' stored'
      → Reach x disk Loads s (record s { refresh = refreshing b'; stored = stored' })
  refresh_run s b e begins =
      subst (λ v. Reach x disk Loads s v) (ap (λ r. record s { refresh = r }) e) here
  refresh_run s b e (proceeds r st) = next (refresh_run s b e r) (refresh_builds _ _ _ refl st refl)

  reload_run :
      (s : Service x disk) (b : Building x) {b' : Building x} {stored' : Stored disk}
      → s.reload ≡ reloading b
      → BuildRun x disk b s.stored b' stored'
      → Reach x disk Loads s (record s { reload = reloading b'; stored = stored' })
  reload_run s b e begins =
      subst (λ v. Reach x disk Loads s v) (ap (λ r. record s { reload = r }) e) here
  reload_run s b e (proceeds r st) = next (reload_run s b e r) (reload_builds _ _ _ refl st refl)

  -- Whenever both tasks are idle, a new configuration can be loaded, and rules can be built for the
  -- configuration in force and, after that, for the new one: the tasks can go on so that both are
  -- idle again, the new configuration is in force, and the rules are those of the old one.
  pub stale_rules :
      (s : Service x disk) (new : Config) (f g : Fetching) (old_rules new_rules : Blocklist x.Regex)
      (stored₁ stored₂ : Stored disk)
      → s.refresh ≡ sleeping
      → s.reload ≡ waiting
      → Loads new
      → create_blocklist x disk s.config f s.stored ≡ (ok old_rules, stored₁)
      → create_blocklist x disk new g stored₁ ≡ (ok new_rules, stored₂)
      → Reach x disk Loads s (record {
        config = new;
        logs_queries = new.logging.queries;
        pool = upstream_addr new;
        rules = old_rules;
        stored = stored₂;
        refresh = sleeping;
        reload = waiting;
      })
  stale_rules s new f g old_rules new_rules stored₁ stored₂ asleep idle loads old_made new_made =
      next
        (next
          (join_runs
            (next
              (next (next woken_and_fetched (reload_configures new idle loads refl))
                (reload_switches refl refl))
              (reload_swaps refl refl))
            (reload_run
              (record {
                config = new;
                logs_queries = new.logging.queries;
                pool = upstream_addr new;
                rules = s.rules;
                stored = stored₁;
                refresh = refreshing (publishing s.config old_rules);
                reload = reloading (planning new);
              })
              (planning new) refl
              (create_blocklist-BuildRun x disk new g stored₁ new_rules stored₂ new_made)))
          (reload_publishes new new_rules refl refl))
        (refresh_publishes s.config old_rules refl refl)
    where
      woken : Reach x disk Loads s (record s { refresh = refreshing (planning s.config) })
      woken = next here (refresh_wakes asleep refl)

      woken_and_fetched :
          Reach x disk Loads s
            (record s { refresh = refreshing (publishing s.config old_rules); stored = stored₁ })
      woken_and_fetched = join_runs woken (
          refresh_run (record s { refresh = refreshing (planning s.config) }) (planning s.config)
            refl (create_blocklist-BuildRun x disk s.config f s.stored old_rules stored₁ old_made))
