-- ===== src/Tests/RuleRuns.antt =====
-- Matching names against rules.
use dns_ligase.Blocklist.Check.Decision.{Decides, check-Decides}
use dns_ligase.Blocklist.Check.Suffix.{IsParent, Longest, suffix_match-Longest}
use dns_ligase.Blocklist.Check.{suffix_match, lowered, check}
use dns_ligase.Blocklist.Rules.{contains, blocked, allowed, forwarded}
use dns_ligase.Prelude.{◌≡◌, refl, [], ◌∷◌}
use dns_ligase.Tests.Samples.{literal_patterns, ads, ads_rules}
use dns_ligase.Text.Search.{codes}

checks_ads :
    (check literal_patterns ads_rules (codes "Sub.Ads.Com")
      ≡ blocked (codes "block_suffix:ads.com"))
    × (check literal_patterns ads_rules (codes "deep.safe.ads.com")
        ≡ allowed (codes "allow_suffix:safe.ads.com"))
    × (check literal_patterns ads_rules (codes "notads.com") ≡ forwarded)
unfolding check contains
checks_ads = (refl, refl, refl)

check-Decides_example :
    Decides literal_patterns ads_rules
      (lowered literal_patterns ads)
      (check literal_patterns ads_rules ads)
check-Decides_example = check-Decides literal_patterns ads_rules ads

suffix_match-Longest_example :
    Longest
      (λ s. IsParent s (codes "a.ads.com"))
      (ads ∷ [])
      (suffix_match (ads ∷ []) (codes "a.ads.com"))
suffix_match-Longest_example = suffix_match-Longest (ads ∷ []) (codes "a.ads.com")
