-- ===== src/Program/Service/Alone.antt =====
-- `create_blocklist` of src/main.rs as one function, and as the parts between which other tasks run.
use dns_ligase.Blocklist.Rules.{External, Blocklist}
use dns_ligase.Prelude.{ap, ◌≡◌, arith, ap}
use mathlib.Core.Path.{subst}
use dns_ligase.Program.Build.{
  fetch_lists, create_blocklist, Fetching, Stored, plan_lists, merge_lists, list_rules,
  finish_lists,
}
use dns_ligase.Program.Service.{
  Building, planning, publishing, BuildStep, plans, merges, prunes, Config,
}
use dns_ligase.Io.{ok, err, fault, Result}
use dns_ligase.Cache.Store.{Disk}

module _ (x : External) (disk : Disk) where
  -- Parts that follow one another on what the cache stores, with nothing in between.
  pub data BuildRun (b : Building x) (stored : Stored disk)
      : Building x → Stored disk → Type 0 where
    begins : BuildRun b stored b stored
    proceeds :
        {c d : Building x} {stored' stored'' : Stored disk}
        → BuildRun b stored c stored'
        → BuildStep x disk c stored' d stored''
        → BuildRun b stored d stored''

  create_blocklist-parts :
      (cfg : Config) (f : Fetching) (stored : Stored disk) (bl : Blocklist x.Regex)
      (stored' : Stored disk)
      → create_blocklist x disk cfg f stored ≡ (ok bl, stored')
      → (list_rules x cfg (fetch_lists disk cfg f stored).0 ≡ ok bl)
        × (finish_lists disk cfg f.saved (fetch_lists disk cfg f stored).1 ≡ stored')
  unfolding create_blocklist
  create_blocklist-parts cfg f stored bl stored' e =
      parts (list_rules x cfg (fetch_lists disk cfg f stored).0) (fetch_lists disk cfg f stored).1 e
    where
      parts :
          (r : Result (Blocklist x.Regex)) (fetched : Stored disk)
          → (elim r as (λ _. Result (Blocklist x.Regex) × Stored disk) [
            | ok bl ↦ (ok bl, finish_lists disk cfg f.saved fetched)
            | err e ↦ (err e, fetched)
            | fault e ↦ (fault e, fetched)
          ])
            ≡ (ok bl, stored')
          → (r ≡ ok bl) × (finish_lists disk cfg f.saved fetched ≡ stored')
      parts (ok c) fetched e = (ap (λ p. p.0) e, ap (λ p. p.1) e)
      parts (err c) fetched e = ground arith
      parts (fault c) fetched e = ground arith

  -- The rules that the function returns are what a task can come to publish undisturbed.
  pub create_blocklist-BuildRun :
      (cfg : Config) (f : Fetching) (stored : Stored disk) (bl : Blocklist x.Regex)
      (stored' : Stored disk)
      → create_blocklist x disk cfg f stored ≡ (ok bl, stored')
      → BuildRun (planning cfg) stored (publishing cfg bl) stored'
  unfolding fetch_lists
  create_blocklist-BuildRun cfg f stored bl stored' e =
      let (made, stores) = create_blocklist-parts cfg f stored bl stored' e in
      let (fresh, jobs) = plan_lists disk cfg f.planned_at stored in
      subst (λ t. BuildRun (planning cfg) stored (publishing cfg bl) t) stores
        (proceeds
          (proceeds (proceeds begins (plans cfg f.planned_at stored))
            (merges cfg fresh jobs f.merged_at (f.downloads jobs) stored bl made))
          (prunes cfg bl f.saved (merge_lists disk f.merged_at (f.downloads jobs) stored).1))
