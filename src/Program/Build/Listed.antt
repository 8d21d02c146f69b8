-- ===== src/Program/Build/Listed.antt =====
-- A line of a list and the rules that `create_blocklist` of src/main.rs builds.
use dns_ligase.Blocklist.Grows.{GrowsTo, Grows, Grows-trans, Within}
use dns_ligase.Blocklist.Lines.{parse_lines_into, parse_lines_into_allow, parse_lines_into_regex}
use dns_ligase.Blocklist.Lines.Grows.{
  parse_lines_into-GrowsTo, parse_lines_into_allow-GrowsTo, parse_lines_into_regex-Grows,
}
use dns_ligase.Blocklist.Lines.Suffix.{IsPlain, suffix_line, parse_each-plain}
use dns_ligase.Blocklist.Pieces.{lines}
use dns_ligase.Blocklist.Rules.{External, Blocklist, contains}
use dns_ligase.Io.{ok, err, fault, Result, and_then}
use dns_ligase.Prelude.{
  true, false, List, [], ◌∷◌, Option, none, some, ◌≡◌, refl, Bytes, bytes_eq, any, arith,
  Bool-cases, inl, inr,
}
use dns_ligase.Program.Build.{manual_rules, add_lists, body_of, list_rules, add_all_lists}
use dns_ligase.Program.Build.Added.{add_lists-GrowsTo}
use dns_ligase.Program.Config.{Config}
use dns_ligase.Text.Search.{bytes_eq_iff}
use mathlib.Core.Path.{subst}

-- Both parts of a sequence succeed if it does.
and_then-ok :
    {A B : Type 0} (r : Result A) (f : A → Result B) (b : B)
    → and_then r f ≡ ok b
    → (a : A) × (r ≡ ok a) × (f a ≡ ok b)
and_then-ok (ok a) f b h = (a, refl, h)
and_then-ok (err e) f b h = ground arith
and_then-ok (fault e) f b h = ground arith

module _ (x : External) where
  -- The body of a URL of the list is parsed at some point, and its rules stay.
  add_lists-parsed :
      (parse_body : Blocklist x.Regex → Bytes → Result (Blocklist x.Regex))
      → ((bl : Blocklist x.Regex) (body : Bytes) → GrowsTo bl (parse_body bl body))
      → (urls : List Bytes) (bodies : List (Bytes × Bytes)) (url body : Bytes)
        (bl bl' : Blocklist x.Regex)
      → any (bytes_eq url) urls ≡ true
      → body_of url bodies ≡ some body
      → add_lists x parse_body urls bodies bl ≡ ok bl'
      → (before : Blocklist x.Regex) × (parsed : Blocklist x.Regex) × (parse_body before body
          ≡ ok parsed)
        × Grows parsed bl'
  unfolding add_lists
  add_lists-parsed parse_body g [] bodies url body bl bl' m o h = ground arith
  add_lists-parsed parse_body g (u ∷ urls) bodies url body bl bl' m o h =
      elim (Bool-cases (bytes_eq url u)) [
        | inl e ↦ here (
            rw (add_lists, subst (λ v. body_of v bodies ≡ some body) ((bytes_eq_iff url u).0 e) o)
              at h)
        | inr e ↦
            later (body_of u bodies)
              (λ b k. add_lists-parsed parse_body g urls bodies url body b bl' (rw e at m) o k) h
      ]
    where
      Found : Type 0
      Found =
          (before : Blocklist x.Regex) × (parsed : Blocklist x.Regex) × (parse_body before body
            ≡ ok parsed)
          × Grows parsed bl'

      here :
          and_then (parse_body bl body) (λ b. add_lists x parse_body urls bodies b) ≡ ok bl' → Found
      here k =
          let (parsed, p, rest) =
            and_then-ok (parse_body bl body) (λ b. add_lists x parse_body urls bodies b) bl' k in
          (
            bl,
            parsed,
            p,
            subst (GrowsTo parsed) rest (add_lists-GrowsTo x parse_body g urls bodies parsed),
          )

      later :
          (other : Option Bytes)
          → ((b : Blocklist x.Regex) → add_lists x parse_body urls bodies b ≡ ok bl' → Found)
          → (elim other as (λ _. Result (Blocklist x.Regex)) [
            | some text ↦ and_then (parse_body bl text) λ b. add_lists x parse_body urls bodies b
            | none ↦ add_lists x parse_body urls bodies bl
          ])
            ≡ ok bl'
          → Found
      later none ih k = ih bl k
      later (some text) ih k =
          let (b, p, rest) =
            and_then-ok (parse_body bl text) (λ b. add_lists x parse_body urls bodies b) bl' k in
          ih b rest

  -- The rule of a line `||d^` in a list of `blocklists.urls` is in force.
  pub list_rules-plain :
      (cfg : Config) (bodies : List (Bytes × Bytes)) (bl : Blocklist x.Regex) (url body d : Bytes)
      → list_rules x cfg bodies ≡ ok bl
      → any (bytes_eq url) cfg.blocklists.urls ≡ true
      → body_of url bodies ≡ some body
      → any (bytes_eq (suffix_line d)) (lines body) ≡ true
      → IsPlain d
      → contains bl.block_suffixes d ≡ true
  unfolding list_rules add_all_lists parse_lines_into Within
  list_rules-plain cfg bodies bl url body d h listed found line plain =
      let lists = cfg.blocklists in
      let allow : Blocklist x.Regex → Result (Blocklist x.Regex) =
        λ b. add_lists x (parse_lines_into_allow x) lists.allowlist_urls bodies b in
      let regex_block : Blocklist x.Regex → Result (Blocklist x.Regex) = λ b.
        add_lists x (λ b text. ok (parse_lines_into_regex x b text false)) lists.regex_block_urls
          bodies b in
      let regex_allow : Blocklist x.Regex → Result (Blocklist x.Regex) = λ b.
        add_lists x (λ b text. ok (parse_lines_into_regex x b text true)) lists.regex_allow_urls
          bodies b in
      let (manual, m, all) =
        and_then-ok (manual_rules x cfg.matching) (add_all_lists x lists bodies) bl h in
      let (b₁, k₁, rest₁) =
        and_then-ok (add_lists x (parse_lines_into x) lists.urls bodies manual)
          (λ b. and_then (allow b) (λ b. and_then (regex_block b) regex_allow)) bl all in
      let (b₂, k₂, rest₂) =
        and_then-ok (allow b₁) (λ b. and_then (regex_block b) regex_allow) bl rest₁ in
      let (b₃, k₃, k₄) = and_then-ok (regex_block b₂) regex_allow bl rest₂ in
      let (before, parsed, p, grown) =
        add_lists-parsed (parse_lines_into x) (parse_lines_into-GrowsTo x) lists.urls bodies url
          body manual b₁ listed found k₁ in
      let g₂ : Grows b₁ b₂ = subst (GrowsTo b₁) k₂ (
        add_lists-GrowsTo x (parse_lines_into_allow x) (parse_lines_into_allow-GrowsTo x)
          lists.allowlist_urls bodies b₁) in
      let g₃ : Grows b₂ b₃ = subst (GrowsTo b₂) k₃ (
        add_lists-GrowsTo x (λ b text. ok (parse_lines_into_regex x b text false))
          (parse_lines_into_regex-Grows x false) lists.regex_block_urls bodies b₂) in
      let g₄ : Grows b₃ bl = subst (GrowsTo b₃) k₄ (
        add_lists-GrowsTo x (λ b text. ok (parse_lines_into_regex x b text true))
          (parse_lines_into_regex-Grows x true) lists.regex_allow_urls bodies b₃) in
      (Grows-trans grown (Grows-trans g₂ (Grows-trans g₃ g₄))).block_suffixes_stay d
        (parse_each-plain x false d (lines body) before parsed plain line p)
