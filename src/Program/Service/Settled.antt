-- ===== src/Program/Service/Settled.antt =====
-- When the rules of src/main.rs are those of the configuration in force: what two tasks that do not
-- overlap see to, and what two that do can leave behind.
use dns_ligase.Program.Service.Current.{
  BuiltFrom, BuildsFor, reloading-eq, refreshing-eq, BuildStep-BuildsFor,
}
use dns_ligase.Blocklist.Rules.{External, Blocklist}
use dns_ligase.Prelude.{◌≡◌, refl, arith, inl, inr, ◌≢◌, ◌⊎◌, List, Bytes}
use mathlib.Core.Path.{subst}
use dns_ligase.Program.Service.{
  Building, publishing, refreshing, waiting, reloading, Service, Step, refresh_wakes,
  refresh_builds, refresh_publishes, refresh_dies, reload_configures, reload_switches, reload_swaps,
  reload_builds, reload_publishes, reload_dies, Config, start, Stored,
}
use dns_ligase.Cache.Store.{Disk}
use dns_ligase.Io.{ok}
use dns_ligase.Program.Build.{list_rules}

module _ (x : External) where
  module _ (disk : Disk) where
    module _ (Loads : Config → Type 0) where
      -- The two tasks are not at work at the same time.
      abbrev pub IsApart : Service x disk → Type 0
      IsApart s = ((b : Building x) → s.refresh ≢ refreshing b) ⊎ (s.reload ≡ waiting)

      -- Runs that keep the tasks apart.
      pub data ReachApart (s : Service x disk) : Service x disk → Type 0 where
        here_apart : ReachApart s s
        next_apart :
            {t u : Service x disk}
            → ReachApart s t
            → Step x disk Loads t u
            → IsApart u
            → ReachApart s u

      pub record Settled (s : Service x disk) : Type 0 where
        pub rules_current : s.reload ≡ waiting → BuiltFrom x s.config s.rules
        pub refresh_current : (b : Building x) → s.refresh ≡ refreshing b → BuildsFor x s.config b
        pub reload_builds_current :
            (b : Building x) → s.reload ≡ reloading b → BuildsFor x s.config b

      Step-Settled :
          (s t : Service x disk) → IsApart t → Step x disk Loads s t → Settled s → Settled t
      Step-Settled s t a (refresh_wakes e u) h = rw u (record {
        rules_current = h.rules_current;
        refresh_current = λ b k. subst (λ c. BuildsFor x s.config c) (refreshing-eq x k) refl;
        reload_builds_current = h.reload_builds_current;
      })
      Step-Settled s t a (refresh_builds b b' stored' e m u) h = rw u (record {
        rules_current = h.rules_current;
        refresh_current = λ c k.
            subst (λ c. BuildsFor x s.config c) (refreshing-eq x k)
              (BuildStep-BuildsFor x disk s.config m (h.refresh_current b e));
        reload_builds_current = h.reload_builds_current;
      })
      Step-Settled s t a (refresh_publishes cfg bl e u) h = rw u (record {
        rules_current = λ k. h.refresh_current (publishing cfg bl) e;
        refresh_current = λ c k. ground arith;
        reload_builds_current = h.reload_builds_current;
      })
      Step-Settled s t a (refresh_dies b stored' e m u) h = rw u (record {
        rules_current = h.rules_current;
        refresh_current = λ c k. ground arith;
        reload_builds_current = h.reload_builds_current;
      })
      Step-Settled s t a (reload_configures cfg e l u) h = rw u (record {
        rules_current = λ k. ground arith;
        refresh_current = λ b k. absurd (elim (subst (λ v. IsApart v) u a) as (λ _. ⊥) [
          | inl idle ↦ idle b k
          | inr quiet ↦ ground arith
        ]);
        reload_builds_current = λ b k. ground arith;
      })
      Step-Settled s t a (reload_switches e u) h = rw u (record {
        rules_current = λ k. ground arith;
        refresh_current = h.refresh_current;
        reload_builds_current = λ b k. ground arith;
      })
      Step-Settled s t a (reload_swaps e u) h = rw u (record {
        rules_current = λ k. ground arith;
        refresh_current = h.refresh_current;
        reload_builds_current = λ b k. subst (λ c. BuildsFor x s.config c) (reloading-eq x k) refl;
      })
      Step-Settled s t a (reload_builds b b' stored' e m u) h = rw u (record {
        rules_current = λ k. ground arith;
        refresh_current = h.refresh_current;
        reload_builds_current = λ c k.
            subst (λ c. BuildsFor x s.config c) (reloading-eq x k)
              (BuildStep-BuildsFor x disk s.config m (h.reload_builds_current b e));
      })
      Step-Settled s t a (reload_publishes cfg bl e u) h = rw u (record {
        rules_current = λ k. h.reload_builds_current (publishing cfg bl) e;
        refresh_current = h.refresh_current;
        reload_builds_current = λ c k. ground arith;
      })
      Step-Settled s t a (reload_dies b stored' e m u) h = rw u (record {
        rules_current = λ k. ground arith;
        refresh_current = h.refresh_current;
        reload_builds_current = λ c k. ground arith;
      })

      run-Settled : (s t : Service x disk) → Settled s → ReachApart s t → Settled t
      run-Settled s t h here_apart = h
      run-Settled s t h (next_apart {t = u} r st a) = Step-Settled u t a st (run-Settled s u h r)

      -- In a run that keeps the tasks apart, from a start with rules of its configuration: the
      -- rules in force are those of the configuration in force whenever no reload is under way, and
      -- so are those that a task builds or is about to publish.
      pub ReachApart-Settled :
          (cfg : Config) (bodies : List (Bytes × Bytes)) (bl : Blocklist x.Regex)
          (stored : Stored disk) (t : Service x disk)
          → list_rules x cfg bodies ≡ ok bl
          → ReachApart (start x disk cfg bl stored) t
          → Settled t
      unfolding start
      ReachApart-Settled cfg bodies bl stored t made r =
          run-Settled (start x disk cfg bl stored) t
            (record {
              rules_current = λ k. (bodies, made);
              refresh_current = λ b k. ground arith;
              reload_builds_current = λ b k. ground arith;
            })
            r
