-- ===== src/Journal/Framing.antt =====
-- The fields of an entry that `log_query` of src/journald.rs builds.
use dns_ligase.Journal.{is_newline, sanitize_field, priority, message, field, log_entry}
use dns_ligase.Prelude.{
  ◌≡◌, refl, ap, sym, ◌∙◌, false, List, [], ◌∷◌, ◌++◌, map, if◌then◌else◌, Bytes, any, arith,
  Bool-cases, inl, inr, append_assoc, All,
}
use dns_ligase.Text.Search.{codes}
use dns_ligase.Text.Split.{split, Lacks, split-append}

cleaned-Lacks : (s : Bytes) → Lacks b'\n' (map (λ b. if is_newline b then b'_' else b) s)
cleaned-Lacks [] = refl
cleaned-Lacks (b ∷ s) = ground (arith, cleaned-Lacks s)

no_newline-Lacks : (s : Bytes) → any is_newline s ≡ false → Lacks b'\n' s
no_newline-Lacks [] h = refl
no_newline-Lacks (b ∷ s) h = ground (arith, no_newline-Lacks s)

pub sanitize_field-Lacks : (s : Bytes) → Lacks b'\n' (sanitize_field s)
unfolding sanitize_field
sanitize_field-Lacks s = elim (Bool-cases (any is_newline s)) [
  | inl e ↦ rw e (cleaned-Lacks s)
  | inr e ↦ rw e (no_newline-Lacks s e)
]

Lacks-append : (s t : Bytes) → Lacks b'\n' s → Lacks b'\n' t → Lacks b'\n' (s ++ t)
Lacks-append [] t h k = k
Lacks-append (b ∷ s) t h k = ground (arith, Lacks-append s t)

split-field :
    (key value rest : Bytes)
    → Lacks b'\n' key
    → Lacks b'\n' value
    → split b'\n' (field key value rest) ≡ (key ++ value) ∷ split b'\n' rest
split-field key value rest h k =
    ap (split b'\n') (sym (append_assoc key value (b'\n' ∷ rest)))
    ∙ split-append b'\n' (key ++ value) rest (Lacks-append key value h k)

-- The fields one after the other.
abbrev entry : List (Bytes × Bytes) → Bytes
entry [] = []
entry ((key, value) ∷ kvs) = field key value (entry kvs)

abbrev texts : List (Bytes × Bytes) → List Bytes
texts [] = [] ∷ []
texts ((key, value) ∷ kvs) = (key ++ value) ∷ texts kvs

split-entry :
    (kvs : List (Bytes × Bytes))
    → All (λ kv. Lacks b'\n' kv.0 × Lacks b'\n' kv.1) kvs
    → split b'\n' (entry kvs) ≡ texts kvs
unfolding split
split-entry [] h = refl
split-entry ((key, value) ∷ kvs) h =
    split-field key value (entry kvs) h.0.0 h.0.1 ∙ ap (◌∷◌ (key ++ value)) (split-entry kvs h.1)

priority-Lacks : (a : Bytes) → Lacks b'\n' (priority a)
unfolding priority
priority-Lacks a = ground arith

abbrev query : Bytes → Bytes → Bytes → Bytes → Bytes
query source domain qtype action =
    codes "query "
    ++ (action ++ (codes " " ++ (domain ++ (codes " (" ++ (qtype ++ (codes ") from " ++ source))))))

query-Lacks :
    (source domain qtype action : Bytes)
    → Lacks b'\n' source
    → Lacks b'\n' domain
    → Lacks b'\n' qtype
    → Lacks b'\n' action
    → Lacks b'\n' (query source domain qtype action)
query-Lacks source domain qtype action s d q a =
    Lacks-append action
      (codes " " ++ (domain ++ (codes " (" ++ (qtype ++ (codes ") from " ++ source))))) a
      (Lacks-append domain (codes " (" ++ (qtype ++ (codes ") from " ++ source))) d
        (Lacks-append qtype (codes ") from " ++ source) q s))

message-Lacks :
    (source domain qtype action rule : Bytes)
    → Lacks b'\n' source
    → Lacks b'\n' domain
    → Lacks b'\n' qtype
    → Lacks b'\n' action
    → Lacks b'\n' rule
    → Lacks b'\n' (message source domain qtype action rule)
unfolding message
message-Lacks source domain qtype action [] s d q a r =
    query-Lacks source domain qtype action s d q a
message-Lacks source domain qtype action (b ∷ rule) s d q a r =
    Lacks-append (query source domain qtype action) (codes " [" ++ (b ∷ rule ++ codes "]"))
      (query-Lacks source domain qtype action s d q a)
      (Lacks-append (codes " [") (b ∷ rule ++ codes "]") refl
        (Lacks-append (b ∷ rule) (codes "]") r refl))

-- An entry is read back as these eight fields and no other, whatever bytes the query holds.
pub log_entry-fields :
    (source domain qtype action rule : Bytes)
    → let clean_action = sanitize_field action in
      let clean_rule = sanitize_field rule in
      split b'\n' (log_entry source domain qtype action rule)
      ≡ (codes "PRIORITY=" ++ priority clean_action)
        ∷ codes "SYSLOG_IDENTIFIER=dns-ligase"
        ∷ (codes "MESSAGE="
            ++ message
                (sanitize_field source)
                (sanitize_field domain)
                (sanitize_field qtype)
                clean_action
                clean_rule)
        ∷ (codes "QUERY_SOURCE=" ++ sanitize_field source)
        ∷ (codes "QUERY_DOMAIN=" ++ sanitize_field domain)
        ∷ (codes "QUERY_QTYPE=" ++ sanitize_field qtype)
        ∷ (codes "QUERY_ACTION=" ++ clean_action)
        ∷ (codes "QUERY_RULE=" ++ clean_rule)
        ∷ []
        ∷ []
unfolding log_entry
log_entry-fields source domain qtype action rule =
    split-entry
      ((codes "PRIORITY=", priority (sanitize_field action))
        ∷ (codes "SYSLOG_IDENTIFIER=", codes "dns-ligase")
        ∷ (
          codes "MESSAGE=",
          message (sanitize_field source) (sanitize_field domain) (sanitize_field qtype)
              (sanitize_field action) (sanitize_field rule),
        )
        ∷ (codes "QUERY_SOURCE=", sanitize_field source)
        ∷ (codes "QUERY_DOMAIN=", sanitize_field domain)
        ∷ (codes "QUERY_QTYPE=", sanitize_field qtype)
        ∷ (codes "QUERY_ACTION=", sanitize_field action)
        ∷ (codes "QUERY_RULE=", sanitize_field rule)
        ∷ [])
      (
        (refl, priority-Lacks (sanitize_field action)),
        (
          (refl, refl),
          (
            (
              refl,
              message-Lacks (sanitize_field source) (sanitize_field domain) (sanitize_field qtype)
                  (sanitize_field action) (sanitize_field rule) (sanitize_field-Lacks source)
                  (sanitize_field-Lacks domain) (sanitize_field-Lacks qtype)
                  (sanitize_field-Lacks action) (sanitize_field-Lacks rule),
            ),
            (
              (refl, sanitize_field-Lacks source),
              (
                (refl, sanitize_field-Lacks domain),
                (
                  (refl, sanitize_field-Lacks qtype),
                  ((refl, sanitize_field-Lacks action), ((refl, sanitize_field-Lacks rule), tt)),
                ),
              ),
            ),
          ),
        ),
      )
