-- ===== src/Program/Changes/Complete.antt =====
-- Which changes of the configuration the SIGHUP handler of src/main.rs logs.
use dns_ligase.Blocklist.Rules.{contains, contains-insert}
use dns_ligase.Dns.Message.{Ipv4Addr}
use dns_ligase.Prelude.{
  Bool, true, false, ◌&&◌, ◌||◌, ==_iff, Bool-cases, List, [], ◌∷◌, ◌++◌, map, All, Bytes, bytes_eq,
  ◌≡◌, ◌↔◌, refl, arith, inl, inr, ◌∙◌, sym,
}
use dns_ligase.Program.Changes.{
  Kind, Change, added, removed, collect, difference, compared, unless, address_eq, bool_eq,
  join_changes, part_changes, log_changes,
}
use dns_ligase.Program.Config.{Config}
use dns_ligase.Text.Search.{bytes_eq_iff, bytes_eq_refl}
use mathlib.Core.Bool.{false≢true}

-- The same entries, whatever their order and number.
abbrev pub SameSet : List Bytes → List Bytes → Type 0
SameSet a b = (entry : Bytes) → contains a entry ≡ contains b entry

join_changes-nil : (xss : List (List Change)) → (join_changes xss ≡ []) ↔ All (λ xs. xs ≡ []) xss
unfolding join_changes
join_changes-nil [] = ((λ e. tt), λ h. refl)
join_changes-nil ([] ∷ xss) =
    ((λ e. (refl, (join_changes-nil xss).0 e)), λ h. (join_changes-nil xss).1 h.1)
join_changes-nil ((x ∷ xs) ∷ xss) = ((λ e. ground arith), λ h. absurd (ground (arith, h.0)))

collect-contains :
    (xs : List Bytes) (entry : Bytes) → contains (collect xs) entry ≡ contains xs entry
unfolding collect contains
collect-contains [] entry = refl
collect-contains (x ∷ xs) entry = rw (contains-insert, collect-contains xs entry) refl

or_right : (a b : Bool) → b ≡ true → (a || b) ≡ true
or_right a b h = ground arith

same_truth : (a b : Bool) → (a ≡ true → b ≡ true) → (b ≡ true → a ≡ true) → a ≡ b
same_truth a b f g = ground arith

append-nil_iff : (xs ys : List Change) → (xs ++ ys ≡ []) ↔ ((xs ≡ []) × (ys ≡ []))
append-nil_iff [] ys = ((λ e. (refl, e)), λ h. h.1)
append-nil_iff (x ∷ xs) ys = ((λ e. ground arith), λ h. absurd (ground (arith, h.0)))

-- One set lies within another just if their difference is empty.
difference-nil :
    (a b : List Bytes)
    → (difference a b ≡ []) ↔ ((entry : Bytes) → contains a entry ≡ true → contains b entry ≡ true)
unfolding difference contains
difference-nil [] b = ((λ e entry h. ground arith), λ h. refl)
difference-nil (x ∷ xs) b = elim (Bool-cases (contains b x)) [
  | inl known ↦
      rw (known, difference)
        (
          (λ e entry h. elim (Bool-cases (bytes_eq x entry)) [
            | inl same ↦ rw (← (bytes_eq_iff x entry).0 same) known
            | inr other ↦ (difference-nil xs b).0 e entry (rw other at h)
          ]),
          λ h.
              (difference-nil xs b).1
                (λ entry k. h entry (or_right (bytes_eq x entry) (contains xs entry) k)),
        )
  | inr unknown ↦
      rw (unknown, difference)
        (
          (λ e. ground arith),
          λ h. absurd (false≢true (sym unknown ∙ h x (rw (bytes_eq_refl x) refl))),
        )
]

map-nil : (f : Bytes → Change) (xs : List Bytes) → (map f xs ≡ []) ↔ (xs ≡ [])
map-nil f [] = ((λ e. refl), λ e. refl)
map-nil f (x ∷ xs) = ((λ e. ground arith), λ e. ground arith)

compared-nil : (kind : Kind) (old new : List Bytes) → (compared kind old new ≡ []) ↔ SameSet old new
unfolding compared
compared-nil kind old new = (
  (λ e entry.
      let (gained, lost) =
        (append-nil_iff (map (added kind) (difference (collect new) (collect old))) _).0 e in
      let to_old =
        (difference-nil (collect new) (collect old)).0 ((map-nil (added kind) _).0 gained) entry in
      let to_new =
        (difference-nil (collect old) (collect new)).0 ((map-nil (removed kind) _).0 lost) entry in
      same_truth (contains old entry) (contains new entry)
        (rw (collect-contains old, collect-contains new) at to_new)
        (rw (collect-contains old, collect-contains new) at to_old)),
  λ h. (append-nil_iff (map (added kind) (difference (collect new) (collect old))) _).1 (
    (map-nil (added kind) _).1 (
        (difference-nil (collect new) (collect old)).1
          (λ entry k. rw (collect-contains old, h) (rw (collect-contains new) at k))),
    (map-nil (removed kind) _).1 (
        (difference-nil (collect old) (collect new)).1
          (λ entry k. rw (collect-contains new, ← h entry) (rw (collect-contains old) at k))),
  ),
)

unless-nil : (same : Bool) (change : Change) → (unless same change ≡ []) ↔ (same ≡ true)
unless-nil true change = ((λ e. refl), λ e. refl)
unless-nil false change = ((λ e. ground arith), λ e. ground arith)

address_eq_iff : (a b : Ipv4Addr) → (address_eq a b ≡ true) ↔ (a ≡ b)
unfolding address_eq
address_eq_iff (a, b, c, d) (a', b', c', d') = ground arith

bool_eq_iff : (a b : Bool) → (bool_eq a b ≡ true) ↔ (a ≡ b)
unfolding bool_eq
bool_eq_iff true true = ((λ e. refl), λ e. refl)
bool_eq_iff true false = ((λ e. ground arith), λ e. ground arith)
bool_eq_iff false true = ((λ e. ground arith), λ e. ground arith)
bool_eq_iff false false = ((λ e. refl), λ e. refl)

-- What is compared.
pub record SameLogged (old new : Config) : Type 0 where
  pub address : old.upstream.address ≡ new.upstream.address
  pub port : old.upstream.port ≡ new.upstream.port
  pub listen_addr : old.server.listen_addr ≡ new.server.listen_addr
  pub listen_port : old.server.listen_port ≡ new.server.listen_port
  pub urls : SameSet old.blocklists.urls new.blocklists.urls
  pub allowlist_urls : SameSet old.blocklists.allowlist_urls new.blocklists.allowlist_urls
  pub regex_block_urls : SameSet old.blocklists.regex_block_urls new.blocklists.regex_block_urls
  pub regex_allow_urls : SameSet old.blocklists.regex_allow_urls new.blocklists.regex_allow_urls
  pub interval : old.blocklists.refresh_interval_secs ≡ new.blocklists.refresh_interval_secs
  pub path : old.cache.path ≡ new.cache.path
  pub queries : old.logging.queries ≡ new.logging.queries
  pub manual_block : SameSet old.matching.manual_block new.matching.manual_block
  pub manual_allow : SameSet old.matching.manual_allow new.matching.manual_allow
  pub regex_block : SameSet old.matching.regex_block new.matching.regex_block
  pub regex_allow : SameSet old.matching.regex_allow new.matching.regex_allow

unless_both :
    (a b : Bool) (change : Change) → (unless (a && b) change ≡ []) ↔ ((a ≡ true) × (b ≡ true))
unless_both true true change = ((λ e. (refl, refl)), λ h. refl)
unless_both true false change = ((λ e. ground arith), λ h. absurd (false≢true h.1))
unless_both false b change = ((λ e. ground arith), λ h. absurd (false≢true h.0))

part_changes-SameLogged :
    (old new : Config) → All (λ xs. xs ≡ []) (part_changes old new) → SameLogged old new
unfolding part_changes
part_changes-SameLogged old new
      (
        up,
        (listen, (urls, (allows, (rb, (ra, (every, (path, (log, (mb, (ma, (xb, (xa, end)))))))))))),
      ) =
    let upstream = (unless_both _ _ _).0 up in
    let server = (unless_both _ _ _).0 listen in
    record {
      address = (address_eq_iff old.upstream.address new.upstream.address).0 upstream.0;
      port = (==_iff old.upstream.port new.upstream.port).0 upstream.1;
      listen_addr = (bytes_eq_iff old.server.listen_addr new.server.listen_addr).0 server.0;
      listen_port = (==_iff old.server.listen_port new.server.listen_port).0 server.1;
      urls = (compared-nil _ _ _).0 urls;
      allowlist_urls = (compared-nil _ _ _).0 allows;
      regex_block_urls = (compared-nil _ _ _).0 rb;
      regex_allow_urls = (compared-nil _ _ _).0 ra;
      interval =
          (==_iff old.blocklists.refresh_interval_secs new.blocklists.refresh_interval_secs).0
            ((unless-nil _ _).0 every);
      path = (bytes_eq_iff old.cache.path new.cache.path).0 ((unless-nil _ _).0 path);
      queries = (bool_eq_iff old.logging.queries new.logging.queries).0 ((unless-nil _ _).0 log);
      manual_block = (compared-nil _ _ _).0 mb;
      manual_allow = (compared-nil _ _ _).0 ma;
      regex_block = (compared-nil _ _ _).0 xb;
      regex_allow = (compared-nil _ _ _).0 xa;
    }

SameLogged-part_changes :
    (old new : Config) → SameLogged old new → All (λ xs. xs ≡ []) (part_changes old new)
unfolding part_changes
SameLogged-part_changes old new h = (
  (unless_both _ _ _).1 (
    (address_eq_iff old.upstream.address new.upstream.address).1 h.address,
    (==_iff _ _).1 h.port,
  ),
  (
    (unless_both _ _ _).1 (
      (bytes_eq_iff old.server.listen_addr new.server.listen_addr).1 h.listen_addr,
      (==_iff _ _).1 h.listen_port,
    ),
    (
      (compared-nil _ _ _).1 h.urls,
      (
        (compared-nil _ _ _).1 h.allowlist_urls,
        (
          (compared-nil _ _ _).1 h.regex_block_urls,
          (
            (compared-nil _ _ _).1 h.regex_allow_urls,
            (
              (unless-nil _ _).1 ((==_iff _ _).1 h.interval),
              (
                (unless-nil _ _).1 ((bytes_eq_iff old.cache.path new.cache.path).1 h.path),
                (
                  (unless-nil _ _).1 ((bool_eq_iff _ _).1 h.queries),
                  (
                    (compared-nil _ _ _).1 h.manual_block,
                    (
                      (compared-nil _ _ _).1 h.manual_allow,
                      (
                        (compared-nil _ _ _).1 h.regex_block,
                        ((compared-nil _ _ _).1 h.regex_allow, tt),
                      ),
                    ),
                  ),
                ),
              ),
            ),
          ),
        ),
      ),
    ),
  ),
)

-- A reload logs nothing just if the two configurations agree on the address of the resolver, on the
-- address to listen on, on all lists as sets, on the refresh interval, on the path of the cache, and
-- on the switch of the query log; `cache_ttl_secs` and `use_tcp` are not compared.
pub log_changes-SameLogged : (old new : Config) → (log_changes old new ≡ []) ↔ SameLogged old new
unfolding log_changes
log_changes-SameLogged old new = (
  (λ e. part_changes-SameLogged old new ((join_changes-nil (part_changes old new)).0 e)),
  (λ h. (join_changes-nil (part_changes old new)).1 (SameLogged-part_changes old new h)),
)
