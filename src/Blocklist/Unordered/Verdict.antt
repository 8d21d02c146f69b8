-- ===== src/Blocklist/Unordered/Verdict.antt =====
-- What `Blocklist::check` of src/blocklist.rs decides, without the text of the rule, does not depend
-- on the order of the rules.
use dns_ligase.Blocklist.Check.Decision.{AllowHits, BlockHits, Decides, check-Decides}
use dns_ligase.Blocklist.Check.{check, lowered}
use dns_ligase.Blocklist.Rules.{External, Blocklist, MatchOutcome, blocked, allowed, forwarded}
use dns_ligase.Blocklist.Unordered.{RuleSet, SameHits, SameHits-sym}
use dns_ligase.Prelude.{Bytes, ◌≡◌, refl, sym, ◌∙◌, inl, inr}
use mathlib.Core.Quot
use mathlib.Core.Quot.{Quot}

-- What is decided on a name, without the text of the rule.
pub data Verdict : Type 0 where
  is_allowed is_blocked is_forwarded : Verdict

abbrev pub verdict : MatchOutcome → Verdict
verdict (allowed rule) = is_allowed
verdict (blocked rule) = is_blocked
verdict forwarded = is_forwarded

module _ (x : External) where
  same_hit :
      (a b : Blocklist x.Regex) (d : Bytes)
      → SameHits a b
      → (AllowHits x a d → AllowHits x b d) × (BlockHits x a d → BlockHits x b d)
  same_hit a b d h = (allow, block)
    where
      allow : AllowHits x a d → AllowHits x b d
      allow (inl k) = inl (sym (h.allow_domains_same d) ∙ k)
      allow (inr (inl k)) = inr (inl (sym (h.allow_regex_same (λ r. x.is_match r d)) ∙ k))
      allow (inr (inr (s, k, p))) = inr (inr (s, sym (h.allow_suffixes_same s) ∙ k, p))

      block : BlockHits x a d → BlockHits x b d
      block (inl k) = inl (sym (h.block_domains_same d) ∙ k)
      block (inr (inl k)) = inr (inl (sym (h.block_regex_same (λ r. x.is_match r d)) ∙ k))
      block (inr (inr (s, k, p))) = inr (inr (s, sym (h.block_suffixes_same s) ∙ k, p))

  verdict_unique :
      (a b : Blocklist x.Regex) (d : Bytes) (o o' : MatchOutcome)
      → SameHits a b
      → Decides x a d o
      → Decides x b d o'
      → verdict o ≡ verdict o'
  verdict_unique a b d (allowed r) (allowed r') h k l = refl
  verdict_unique a b d (allowed r) (blocked r') h k l = absurd (l.0 ((same_hit a b d h).0 k))
  verdict_unique a b d (allowed r) forwarded h k l = absurd (l.0 ((same_hit a b d h).0 k))
  verdict_unique a b d (blocked r) (allowed r') h k l =
      absurd (k.0 ((same_hit b a d (SameHits-sym h)).0 l))
  verdict_unique a b d (blocked r) (blocked r') h k l = refl
  verdict_unique a b d (blocked r) forwarded h k l = absurd (l.1 ((same_hit a b d h).1 k.1))
  verdict_unique a b d forwarded (allowed r') h k l =
      absurd (k.0 ((same_hit b a d (SameHits-sym h)).0 l))
  verdict_unique a b d forwarded (blocked r') h k l =
      absurd (k.1 ((same_hit b a d (SameHits-sym h)).1 l.1))
  verdict_unique a b d forwarded forwarded h k l = refl

  pub check-SameHits :
      (a b : Blocklist x.Regex) (d : Bytes)
      → SameHits a b
      → verdict (check x a d) ≡ verdict (check x b d)
  check-SameHits a b d h =
      verdict_unique a b (lowered x d) (check x a d) (check x b d) h (check-Decides x a d)
        (check-Decides x b d)

  -- The verdict that a set of rules comes to, whatever their order.
  unfoldable pub decide : RuleSet x.Regex → Bytes → Verdict
  unfolding check
  decide s d = Quot.lift (hlevel) (λ a. verdict (check x a d)) (λ a b h. check-SameHits a b d h) s
