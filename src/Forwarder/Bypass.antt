-- ===== src/Forwarder/Bypass.antt =====
-- A question whose last label ends in a dot byte, through the UDP handler of src/upstream.rs.
use dns_ligase.Blocklist.Check.Decision.{Hits, AllowHits, BlockHits, Decides, check-Decides}
use dns_ligase.Blocklist.Check.Suffix.{IsParent, BehindDot}
use dns_ligase.Blocklist.Check.{check, lowered}
use dns_ligase.Blocklist.Rules.{
  External, HashSet, contains, Blocklist, MatchOutcome, blocked, allowed, forwarded,
}
use dns_ligase.Dns.Message.{DnsMessage, parse, serialize, has_opt}
use dns_ligase.Dns.Name.RoundTrip.{serialize_name-labels}
use dns_ligase.Dns.Name.{serialize_name}
use dns_ligase.Dns.Reader.{concat_with}
use dns_ligase.Dns.Records.{DnsQuestion, serialize_question}
use dns_ligase.Forwarder.Handler.{handle_udp_query}
use dns_ligase.Forwarder.Response.{outgoing}
use dns_ligase.Forwarder.Scene.{Scene, asked}
use dns_ligase.Io.{ok}
use dns_ligase.Forwarder.Handler.Udp.{forwarded_goes_out, blocked_stays_here}
use mathlib.Core.Bool.{false≢true}
use dns_ligase.Blocklist.Check.Suffix.{BehindDot-cons}
use dns_ligase.Prelude.{
  ◌≡◌, ◌≢◌, ◌⊎◌, refl, sym, ap, ◌∙◌, inl, inr, true, false, not, List, [], ◌∷◌, ◌++◌, arith, Bytes,
  any, Bool-cases, keep_if, take, ℕ,
}
use dns_ligase.Text.Search.{is_ascii_uppercase}
use dns_ligase.Text.Split.{split, labels_of, onto_head, is_empty}

-- The name with a dot behind it.
abbrev pub dotted : Bytes → Bytes
dotted d = d ++ b'.' ∷ []

onto_head-append :
    (b : ℕ) (ps : List Bytes) → ps ≢ [] → onto_head b (ps ++ [] ∷ []) ≡ onto_head b ps ++ [] ∷ []
onto_head-append b [] h = absurd (h refl)
onto_head-append b (p ∷ ps) h = refl

split_nonempty : (sep : ℕ) (d : Bytes) → split sep d ≢ []
unfolding split
split_nonempty sep [] = λ e. cc
split_nonempty sep (b ∷ d) = λ e. ground arith

split-dotted : (d : Bytes) → split b'.' (dotted d) ≡ split b'.' d ++ [] ∷ []
unfolding split
split-dotted [] = refl
split-dotted (b ∷ d) =
    ground (arith, split-dotted d, onto_head-append b (split b'.' d) (split_nonempty b'.' d))

keep_if-concat_empty :
    (ps : List Bytes)
    → keep_if (λ p. not (is_empty p)) (ps ++ [] ∷ []) ≡ keep_if (λ p. not (is_empty p)) ps
keep_if-concat_empty [] = refl
keep_if-concat_empty (p ∷ ps) = ground (arith, keep_if-concat_empty ps)

labels_of-dotted : (d : Bytes) → labels_of (dotted d) ≡ labels_of d
unfolding labels_of
labels_of-dotted d = rw (split-dotted d) (keep_if-concat_empty (split b'.' d))

-- The dot is lost when the name is written.
pub serialize_name-dotted : (d : Bytes) → serialize_name (dotted d) ≡ serialize_name d
serialize_name-dotted d =
    rw (serialize_name-labels (dotted d), serialize_name-labels d, labels_of-dotted d)

-- As the list parsers store them: not empty, and with no dot at the end.
abbrev pub Trimmed : HashSet → Type 0
Trimmed set = (s : Bytes) → contains set s ≡ true → (s ≢ []) × ((p : Bytes) → s ≢ dotted p)

BehindDot-dotted :
    (s d : Bytes) → BehindDot s (dotted d) → (s ≡ []) ⊎ ((p : Bytes) × (s ≡ dotted p))
BehindDot-dotted s [] h = elim (BehindDot-cons b'.' [] h) [
  | inl (_, e) ↦ inl e
  | inr none_left ↦ elim none_left [ ]
]
BehindDot-dotted s (b ∷ d) h = elim (BehindDot-cons b (dotted d) h) [
  | inl (_, e) ↦ inr (d, e)
  | inr behind ↦ BehindDot-dotted s d behind
]

-- No trimmed rule matches a name with a dot at its end.
Trimmed-miss :
    (set : HashSet) (s d : Bytes) → Trimmed set → contains set s ≡ true → IsParent s (dotted d) → ⊥
Trimmed-miss set s d t c (inl same) = (t s c).1 d same
Trimmed-miss set s d t c (inr behind) = elim (BehindDot-dotted s d behind) [
  | inl empty ↦ (t s c).0 empty
  | inr (p, e) ↦ (t s c).1 p e
]

module _ (x : External) where
  -- No regex matches the name, and the stored names are trimmed.
  pub record DotBlind (bl : Blocklist x.Regex) (d : Bytes) : Type 0 where
    pub allow_domains : Trimmed bl.allow_domains
    pub block_domains : Trimmed bl.block_domains
    pub allow_suffixes : Trimmed bl.allow_suffixes
    pub block_suffixes : Trimmed bl.block_suffixes
    pub allow_regex : any (λ r. x.is_match r (dotted d)) bl.allow_regex ≡ false
    pub block_regex : any (λ r. x.is_match r (dotted d)) bl.block_regex ≡ false

  miss_all :
      (domains : HashSet) (regexes : List x.Regex) (suffixes : HashSet) (d : Bytes)
      → Trimmed domains
      → any (λ r. x.is_match r (dotted d)) regexes ≡ false
      → Trimmed suffixes
      → ¬ Hits x domains regexes suffixes (dotted d)
  miss_all domains regexes suffixes d t r u (inl h) = (t (dotted d) h).1 d refl
  miss_all domains regexes suffixes d t r u (inr (inl h)) = false≢true (sym r ∙ h)
  miss_all domains regexes suffixes d t r u (inr (inr (s, c, h))) = Trimmed-miss suffixes s d u c h

  none_decided :
      (bl : Blocklist x.Regex) (n : Bytes) (o : MatchOutcome)
      → Decides x bl n o
      → ¬ AllowHits x bl n
      → ¬ BlockHits x bl n
      → o ≡ forwarded
  none_decided bl n (blocked rule) h a b = absurd (b h.1)
  none_decided bl n (allowed rule) h a b = absurd (a h)
  none_decided bl n forwarded h a b = refl

  -- Whatever the rules say of `d`, with a dot behind it no rule but a regex can match.
  pub check-dotted :
      (bl : Blocklist x.Regex) (d : Bytes)
      → any is_ascii_uppercase (dotted d) ≡ false
      → DotBlind bl d
      → check x bl (dotted d) ≡ forwarded
  check-dotted bl d small w =
      none_decided bl (dotted d) (check x bl (dotted d))
        (rw same at (check-Decides x bl (dotted d)))
        (miss_all bl.allow_domains bl.allow_regex bl.allow_suffixes d w.allow_domains w.allow_regex
          w.allow_suffixes)
        (miss_all bl.block_domains bl.block_regex bl.block_suffixes d w.block_domains w.block_regex
          w.block_suffixes)
    where
      same : lowered x (dotted d) ≡ dotted d
      same = unfold lowered in rw small refl

  -- The same message, asking for the name `d`.
  abbrev pub asking : DnsMessage → DnsQuestion → Bytes → DnsMessage
  asking m q d = record m { questions = record q { name = d } ∷ [] }

  serialize-dotted :
      (m : DnsMessage) (q : DnsQuestion) (d : Bytes)
      → serialize (outgoing (asking m q (dotted d))) ≡ serialize (outgoing (asking m q d))
  unfolding serialize outgoing concat_with serialize_question
  serialize-dotted m q d = elim (Bool-cases (has_opt m.additionals)) [
    | inl present ↦ rw (present, serialize_name-dotted d)
    | inr absent ↦ rw (absent, serialize_name-dotted d)
  ]

  -- Where the rules block `d`, where the allow and block domains and suffixes are stored as the list
  -- parsers store them, not empty and with no dot at the end, where no allow or block regex matches
  -- `d` with a dot behind it, and where `d` has no ASCII capitals: a query for `d` stays here, but the
  -- same query with a dot byte behind `d` goes upstream first of all, as what is, byte for byte, the
  -- query for `d`.
  pub dotted_query_bypass :
      (s : Scene x) (packet packet' : Bytes) (m : DnsMessage) (q : DnsQuestion) (d rule : Bytes)
      → parse packet ≡ ok (asking m q d)
      → parse packet' ≡ ok (asking m q (dotted d))
      → check x s.question_rules d ≡ blocked rule
      → any is_ascii_uppercase (dotted d) ≡ false
      → DotBlind s.question_rules d
      → (asked (handle_udp_query x s packet).did ≡ [])
        × (take 1 (asked (handle_udp_query x s packet').did)
            ≡ serialize (outgoing (asking m q d)) ∷ [])
  dotted_query_bypass s packet packet' m q d rule p p' b small w = (
    (blocked_stays_here x s packet _ _ [] rule p refl b).0,
    forwarded_goes_out x s packet' _ _ [] p' refl (check-dotted s.question_rules d small w)
        ∙ ap (λ b. b ∷ []) (serialize-dotted m q d),
  )
