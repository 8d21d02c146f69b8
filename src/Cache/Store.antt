-- ===== src/Cache/Store.antt =====
-- `CachedLists` in src/blocklist.rs: the metadata of the lists in memory, their bodies in files.
pub mod Served
pub mod Saved
pub mod Lasting
use dns_ligase.Cache.Filename.{url_to_filename}
use dns_ligase.Io.{Result, ok}
use dns_ligase.Prelude.{
  ℕ, ◌-◌, Bool, true, false, List, [], ◌∷◌, Option, none, some, ltb, if◌then◌else◌, Bytes, bytes_eq,
  length, keep_if, any,
}

pub record CachedList : Type 0 where
  -- Unix time in seconds
  pub fetched_at : ℕ
  pub etag : Option Bytes
  pub filename : Bytes

pub record CachedLists : Type 0 where
  pub map : List (Bytes × CachedList)
  pub dirty : Bool

-- The directory of the bodies. `write` is `fs::write`: whether it works, and what the directory
-- holds afterwards; `remove` is `fs::remove_file`, whose result the program ignores.
pub record Disk : Type 1 where
  pub Dir : Type 0
  pub read : Bytes → Dir → Option Bytes
  pub write : (file body : Bytes) → Dir → Bool × Dir
  pub remove : Bytes → Dir → Dir

-- `HashMap<String, CachedList>`
unfoldable pub lookup : Bytes → List (Bytes × CachedList) → Option CachedList
lookup url [] = none
lookup url ((u, c) ∷ m) = let rest = lookup url m in if bytes_eq u url then some c else rest

unfoldable pub put : Bytes → CachedList → List (Bytes × CachedList) → List (Bytes × CachedList)
put url c [] = (url, c) ∷ []
put url c ((u, d) ∷ m) =
    let rest = put url c m in if bytes_eq u url then (u, c) ∷ m else (u, d) ∷ rest

pub record FetchJob : Type 0 where
  pub url : Bytes
  pub etag : Option Bytes

pub data DownloadResult : Type 0 where
  fresh : (body : Bytes) (etag : Option Bytes) → DownloadResult
  not_modified : DownloadResult
  stale_fallback : Bytes → DownloadResult
  failed : Bytes → DownloadResult

module _ (disk : Disk) where
  -- `now` is the clock; `now - fetched_at` stops at 0, as `saturating_sub` does.
  unfoldable pub get_if_fresh :
      (now interval : ℕ) (lists : CachedLists) (dir : disk.Dir) (url : Bytes) → Option Bytes
  unfolding lookup
  get_if_fresh now interval lists dir url = elim (lookup url lists.map) [
    | some c ↦ if ltb (now - c.fetched_at) interval then disk.read c.filename dir else none
    | none ↦ none
  ]

  job : CachedLists → Bytes → FetchJob
  unfolding lookup
  job lists url = elim (lookup url lists.map) [
    | some c ↦ record { url = url; etag = c.etag }
    | none ↦ record { url = url; etag = none }
  ]

  -- The bodies that are fresh, and the downloads to make. The time of each look at the clock is that
  -- of the same second.
  unfoldable pub plan_fetches :
      (now interval : ℕ) (lists : CachedLists) (dir : disk.Dir) (urls : List Bytes)
      → List (Bytes × Bytes) × List FetchJob
  unfolding get_if_fresh job
  plan_fetches now interval lists dir [] = ([], [])
  plan_fetches now interval lists dir (url ∷ urls) =
      let (bodies, jobs) = plan_fetches now interval lists dir urls in
      elim (get_if_fresh now interval lists dir url) [
        | some body ↦ ((url, body) ∷ bodies, jobs)
        | none ↦ (bodies, job lists url ∷ jobs)
      ]

  -- What `merge_downloads` has at one point: the lists, the directory, the bodies found so far,
  -- last first.
  abbrev pub Merge : Type 0
  Merge = CachedLists × disk.Dir × List (Bytes × Bytes)

  keep_body : Bytes → Option Bytes → List (Bytes × Bytes) → List (Bytes × Bytes)
  keep_body url none bodies = bodies
  keep_body url (some body) bodies = (url, body) ∷ bodies

  merge_fresh : ℕ → Bytes → Bytes → Option Bytes → Merge → Merge
  unfolding put url_to_filename
  merge_fresh now url body etag (lists, dir, bodies) =
      let filename = url_to_filename url in
      let (written, dir') = disk.write filename body dir in
      if written
      then (
        record {
          map = put url (record { fetched_at = now; etag = etag; filename = filename }) lists.map;
          dirty = true;
        },
        dir',
        (url, body) ∷ bodies,
      )
      else (lists, dir', bodies)

  merge_not_modified : ℕ → Bytes → Merge → Merge
  unfolding put lookup keep_body url_to_filename
  merge_not_modified now url (lists, dir, bodies) = elim (lookup url lists.map) [
    | some c ↦ (
      record { map = put url (record c { fetched_at = now }) lists.map; dirty = true },
      dir,
      keep_body url (disk.read c.filename dir) bodies,
    )
    | none ↦ (lists, dir, keep_body url (disk.read (url_to_filename url) dir) bodies)
  ]

  unfoldable pub merge_one : ℕ → Bytes → DownloadResult → Merge → Merge
  unfolding merge_fresh merge_not_modified
  merge_one now url (fresh body etag) m = merge_fresh now url body etag m
  merge_one now url not_modified m = merge_not_modified now url m
  merge_one now url (stale_fallback body) (lists, dir, bodies) = (lists, dir, (url, body) ∷ bodies)
  merge_one now url (failed e) m = m

  unfoldable pub merge_downloads : ℕ → List (Bytes × DownloadResult) → Merge → Merge
  unfolding merge_one
  merge_downloads now [] m = m
  merge_downloads now ((url, res) ∷ results) m =
      merge_downloads now results (merge_one now url res m)

  unfoldable pub is_kept : List Bytes → Bytes → Bool
  is_kept keep_urls url = any (bytes_eq url) keep_urls

  remove_all : List Bytes → List (Bytes × CachedList) → disk.Dir → disk.Dir
  unfolding is_kept
  remove_all keep_urls [] dir = dir
  remove_all keep_urls ((u, c) ∷ m) dir =
      let rest = remove_all keep_urls m in
      if is_kept keep_urls u then rest dir else rest (disk.remove c.filename dir)

  -- The entries whose URL is no longer wanted go, and their files.
  unfoldable pub prune : List Bytes → CachedLists → disk.Dir → CachedLists × disk.Dir
  unfolding is_kept remove_all
  prune keep_urls lists dir =
      let kept = keep_if (λ uc. is_kept keep_urls uc.0) lists.map in
      (
        record {
          map = kept;
          dirty = if ltb (length kept) (length lists.map) then true else lists.dirty;
        },
        remove_all keep_urls lists.map dir,
      )

-- The result, whether the file was written to, and the lists afterwards. `saved` is what making the
-- directory and writing the file return.
unfoldable pub save_to_disk :
    Result (Unit {0}) → CachedLists → Result (Unit {0}) × Bool × CachedLists
save_to_disk saved lists =
    if lists.dirty then (saved, true, record lists { dirty = false }) else (ok tt, false, lists)

-- `contents` is what the file holds, if it can be read, and `from_str` is that of `serde_json`. The mark
-- `dirty` is not stored.
unfoldable pub load_from_disk :
    (contents : Option Bytes)
    → (from_str : Bytes → Option (List (Bytes × CachedList))) → Option CachedLists
load_from_disk none from_str = none
load_from_disk (some text) from_str = elim (from_str text) [
  | some map ↦ some (record { map = map; dirty = false })
  | none ↦ none
]

-- What `main` starts with.
unfoldable pub load_or_default :
    (contents : Option Bytes)
    → (from_str : Bytes → Option (List (Bytes × CachedList))) → CachedLists
unfolding load_from_disk
load_or_default contents from_str = elim (load_from_disk contents from_str) [
  | some lists ↦ lists
  | none ↦ record { map = []; dirty = false }
]
