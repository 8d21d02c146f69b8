-- ===== src/Tests/CacheRuns.antt =====
-- The cache of lists on concrete inputs.
use dns_ligase.Cache.Store.{load_or_default, fresh, save_to_disk, merge_downloads}
use dns_ligase.Cache.Store.Saved.{
  Metadata, Persistent, unchanged, merges, save, terminate, restart-load, failed_save-lost,
}
use dns_ligase.Io.{ok, err, other, os}
use dns_ligase.Prelude.{
  zero, suc, Bytes, List, [], ◌∷◌, ◌++◌, map, Option, none, some, ◌≡◌, refl, ap, ◌∙◌, false,
}
use dns_ligase.Cache.Filename.{url_to_filename}
use dns_ligase.Cache.Store.{not_modified}
use dns_ligase.Cache.Store.Lasting.{IsFaithful}
use dns_ligase.Program.Build.{all_urls, body_of, plan_lists, finish_lists, merge_lists}
use dns_ligase.Program.Build.Reuse.{merged-planned}
use dns_ligase.Cache.Fetch.{Web, got, download_one}
use dns_ligase.Cache.Fetch.Fallback.{IsSentAs, download_one-fresh}
use dns_ligase.Prelude.{◌↔◌}
use dns_ligase.Tests.ProgramRuns.{one_list, nothing_stored}
use mathlib.Core.Bool.{false≢true}
use dns_ligase.Prelude.{◌≢◌, sym, inl, inr, bytes_eq, Bool-cases, arith}
use dns_ligase.Tests.Samples.{ads, files}
use dns_ligase.Text.Search.{codes, bytes_eq_iff, bytes_eq_refl}

-- A text for each list of fields: a zero before each field, whose bytes are moved up by one.
abbrev write_fields : List Bytes → Bytes
write_fields [] = []
write_fields (f ∷ fs) = 0 ∷ (map suc f ++ write_fields fs)

-- The bytes before the first zero, and the fields behind it.
abbrev read_fields : Bytes → Bytes × List Bytes
read_fields [] = ([], [])
read_fields (zero ∷ s) = let (field, fields) = read_fields s in ([], field ∷ fields)
read_fields (suc b ∷ s) = let (field, fields) = read_fields s in (b ∷ field, fields)

read_fields-map :
    (f s : Bytes) (fields : List Bytes)
    → read_fields s ≡ ([], fields)
    → read_fields (map suc f ++ s) ≡ (f, fields)
read_fields-map [] s fields h = h
read_fields-map (b ∷ f) s fields h = ap (λ r. (b ∷ r.0, r.1)) (read_fields-map f s fields h)

read_fields-write : (fs : List Bytes) → read_fields (write_fields fs) ≡ ([], fs)
read_fields-write [] = refl
read_fields-write (f ∷ fs) =
    ap (λ r. ([], r.0 ∷ r.1)) (read_fields-map f (write_fields fs) fs (read_fields-write fs))

abbrev etag_field : Option Bytes → Bytes
etag_field none = []
etag_field (some e) = 1 ∷ e

abbrev etag_of : Bytes → Option Bytes
etag_of [] = none
etag_of (b ∷ e) = some e

abbrev fields_of : Metadata → List Bytes
fields_of [] = []
fields_of ((url, c) ∷ m) = url ∷ (c.fetched_at ∷ []) ∷ etag_field c.etag ∷ c.filename ∷ fields_of m

abbrev entries_of : List Bytes → Option Metadata
entries_of [] = some []
entries_of (url ∷ (t ∷ []) ∷ e ∷ f ∷ fs) = elim (entries_of fs) [
  | some m ↦ some ((url, record { fetched_at = t; etag = etag_of e; filename = f }) ∷ m)
  | none ↦ none
]
entries_of _ = none

etag_of-field : (e : Option Bytes) → etag_of (etag_field e) ≡ e
etag_of-field none = refl
etag_of-field (some e) = refl

entries_of-fields : (m : Metadata) → entries_of (fields_of m) ≡ some m
entries_of-fields [] = refl
entries_of-fields ((url, c) ∷ m) = rw (entries_of-fields m, etag_of-field c.etag) refl

abbrev to_string : Metadata → Bytes
to_string m = write_fields (fields_of m)

abbrev from_str : Bytes → Option Metadata
from_str s = entries_of (read_fields s).1

reads_back : (m : Metadata) → from_str (to_string m) ≡ some m
reads_back m = ap (λ r. entries_of r.1) (read_fields-write (fields_of m)) ∙ entries_of-fields m

abbrev started : Persistent files to_string
started = record { lists = load_or_default none from_str; dir = λ f. none; file = none }

-- One list is downloaded.
abbrev one_merged : Persistent files to_string
one_merged = record started {
  lists =
      (merge_downloads files 100 ((ads, fresh (codes "b.com") none) ∷ [])
        (started.lists, started.dir, [])).0;
  dir =
      (merge_downloads files 100 ((ads, fresh (codes "b.com") none) ∷ [])
        (started.lists, started.dir, [])).1;
}

restart-load_example :
    load_or_default (terminate files to_string (ok tt) none one_merged).file from_str
    ≡ record one_merged.lists { dirty = false }
restart-load_example =
    restart-load files to_string from_str reads_back none none (λ f. none) one_merged
      (merges 100 ((ads, fresh (codes "b.com") none) ∷ []) unchanged)

failed_save-lost_example :
    ((save_to_disk (ok tt) (save files to_string (err (os other)) none one_merged).lists).0 ≡ ok tt)
    × ((save files to_string
          (ok tt)
          none
          (save files to_string (err (os other)) none one_merged)).lists.map
        ≡ one_merged.lists.map)
    × ((save files to_string
          (ok tt)
          none
          (save files to_string (err (os other)) none one_merged)).file
        ≡ none)
unfolding merge_downloads
failed_save-lost_example =
    failed_save-lost files to_string (os other) (ok tt) none none one_merged refl

files-IsFaithful : IsFaithful files
files-IsFaithful = record {
  write-read = λ file text dir w. rw (bytes_eq_refl file) refl;
  write-other = λ file name text dir differs. rw (differ file name differs) refl;
  remove-other = λ file name dir differs. rw (differ file name differs) refl;
}
  where
    differ : (file name : Bytes) → file ≢ name → bytes_eq name file ≡ false
    differ file name h = elim (Bool-cases (bytes_eq name file)) [
      | inl e ↦ absurd (h (sym ((bytes_eq_iff name file).0 e)))
      | inr e ↦ e
    ]

other_file : url_to_filename (codes "x") ≢ url_to_filename (codes "u")
unfolding url_to_filename
other_file e =
    false≢true ((bytes_eq_iff (url_to_filename (codes "x")) (url_to_filename (codes "u"))).1 e)

other_url : codes "x" ≢ codes "u"
other_url e = false≢true ((bytes_eq_iff (codes "x") (codes "u")).1 e)

-- The list is downloaded between two others, one of which has not changed.
merged-planned_example :
    body_of
      (codes "u")
      (plan_lists files one_list 150 (
        finish_lists files one_list
          (ok tt)
          (merge_lists files 100
            ((codes "x", fresh (codes "c.com") none)
              ∷ (codes "u", fresh (codes "b.com") none)
              ∷ (codes "x", not_modified)
              ∷ [])
            nothing_stored).1)).0
    ≡ some (codes "b.com")
unfolding merge_downloads all_urls
merged-planned_example =
    merged-planned files files-IsFaithful one_list one_list 100 150 (ok tt) (codes "u")
      (codes "b.com") none ((codes "x", fresh (codes "c.com") none) ∷ [])
      ((codes "x", not_modified) ∷ []) nothing_stored.0 nothing_stored.1 refl tt
      (inr other_file, tt) ((other_url, other_file), tt) refl refl (omega arith)

-- A server that says that the list has not changed, and then has an error page for it.
abbrev failing : Web
failing = record {
  Client = Unit;
  url_host = λ url. some (some (codes "lists.org"));
  url_port = λ url. some 443;
  is_ip = λ host. false;
  plain = tt;
  pinned = λ host addrs. some tt;
  get = λ attempt client url etag. elim attempt [
    | zero ↦ got (record {
      status = 304;
      status_text = codes "304 Not Modified";
      etag = none;
      text = got [];
    })
    | suc n ↦ got (record {
      status = 503;
      status_text = codes "503 Service Unavailable";
      etag = none;
      text = got (codes "try again later");
    })
  ];
}

error_page :
    download_one failing tt (codes "u") (some ads) none ≡ fresh (codes "try again later") none
unfolding download_one
error_page = refl

download_one-fresh_example :
    (download_one failing tt (codes "u") (some ads) none ≡ fresh (codes "try again later") none)
    ↔ IsSentAs failing tt
        (codes "u")
        none
        (failing.get 0 tt (codes "u") (some ads))
        (codes "try again later")
        none
download_one-fresh_example =
    download_one-fresh failing tt (codes "u") (codes "try again later") (some ads) none none
