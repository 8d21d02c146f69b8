-- ===== src/Journal.antt =====
-- The query log: `log_query` and `sanitize_field` in src/journald.rs, up to the entry that `send`
-- hands to the journal's socket.
pub mod Framing
use dns_ligase.Prelude.{
  ℕ, Bool, List, [], ◌∷◌, ◌++◌, map, ◌||◌, ◌==◌, if◌then◌else◌, Bytes, bytes_eq, any,
}
use dns_ligase.Text.Search.{codes}
use dns_ligase.Text.Split.{is_empty}

abbrev pub is_newline : ℕ → Bool
is_newline b = b == b'\n' || b == b'\r'

unfoldable pub sanitize_field : Bytes → Bytes
sanitize_field s = if any is_newline s then map (λ b. if is_newline b then b'_' else b) s else s

unfoldable pub priority : Bytes → Bytes
priority action =
    if bytes_eq action (codes "blocked")
    then codes "6"
    else if bytes_eq action (codes "allowed")
    then codes "7"
    else codes "6"

-- The text for people, from fields that are clean.
unfoldable pub message : (source domain qtype action rule : Bytes) → Bytes
message source domain qtype action rule =
    let query =
      codes "query "
      ++ (action
          ++ (codes " " ++ (domain ++ (codes " (" ++ (qtype ++ (codes ") from " ++ source)))))) in
    if is_empty rule then query else query ++ (codes " [" ++ (rule ++ codes "]"))

-- A field of the journal's protocol: `KEY=value` and a newline, before what follows.
abbrev pub field : Bytes → Bytes → Bytes → Bytes
field key value rest = key ++ (value ++ b'\n' ∷ rest)

-- The entry of `log_query`.
unfoldable pub log_entry : (source domain qtype action rule : Bytes) → Bytes
unfolding sanitize_field priority message
log_entry source domain qtype action rule =
    let source = sanitize_field source in
    let domain = sanitize_field domain in
    let qtype = sanitize_field qtype in
    let action = sanitize_field action in
    let rule = sanitize_field rule in
    field (codes "PRIORITY=") (priority action) (
      field (codes "SYSLOG_IDENTIFIER=") (codes "dns-ligase") (
        field (codes "MESSAGE=") (message source domain qtype action rule) (
          field (codes "QUERY_SOURCE=") source (
            field (codes "QUERY_DOMAIN=") domain (
              field (codes "QUERY_QTYPE=") qtype
                (field (codes "QUERY_ACTION=") action (field (codes "QUERY_RULE=") rule [])))))))
