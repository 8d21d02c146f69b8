-- ===== src/Cache/Store/Lasting.antt =====
-- A list that `CachedLists` of src/blocklist.rs has stored stays stored while others are merged and
-- pruned.
use dns_ligase.Cache.Filename.{url_to_filename}
use dns_ligase.Cache.Store.{
  CachedList, CachedLists, Disk, DownloadResult, lookup, put, fresh, not_modified, stale_fallback,
  failed, get_if_fresh, Merge, merge_fresh, merge_not_modified, merge_one, merge_downloads, is_kept,
  remove_all, prune,
}
use dns_ligase.Cache.Store.Served.{lookup-put, prune-lookup}
use dns_ligase.Prelude.{
  ℕ, ◌-◌, ◌<◌, ◌≡◌, ◌≢◌, ◌⊎◌, true, false, List, [], ◌∷◌, Option, some, Bytes, bytes_eq, All, refl,
  sym, ◌∙◌, arith, Bool-cases, inl, inr, lt→ltb, Option-cases,
}
use dns_ligase.Text.Search.{bytes_eq_iff}
use mathlib.Core.Path.{subst}

-- The files of a directory are independent of each other, and a file that was written can be read.
pub record IsFaithful (disk : Disk) : Type 0 where
  pub write-read :
      (file text : Bytes) (dir : disk.Dir)
      → (disk.write file text dir).0 ≡ true
      → disk.read file (disk.write file text dir).1 ≡ some text
  pub write-other :
      (file other text : Bytes) (dir : disk.Dir)
      → file ≢ other
      → disk.read other (disk.write file text dir).1 ≡ disk.read other dir
  pub remove-other :
      (file other : Bytes) (dir : disk.Dir)
      → file ≢ other
      → disk.read other (disk.remove file dir) ≡ disk.read other dir

lookup-put_other :
    (url other : Bytes) (c : CachedList) (m : List (Bytes × CachedList))
    → other ≢ url
    → lookup url (put other c m) ≡ lookup url m
unfolding lookup put
lookup-put_other url other c [] h = elim (Bool-cases (bytes_eq other url)) [
  | inl e ↦ absurd (h ((bytes_eq_iff other url).0 e))
  | inr e ↦ rw e refl
]
lookup-put_other url other c ((u, d) ∷ m) h = elim (Bool-cases (bytes_eq u other)) [
  | inl e ↦ elim (Bool-cases (bytes_eq u url)) [
    | inl k ↦ absurd (h (sym ((bytes_eq_iff u other).0 e) ∙ (bytes_eq_iff u url).0 k))
    | inr k ↦ rw (e, k) refl
  ]
  | inr e ↦ elim (Bool-cases (bytes_eq u url)) [
    | inl k ↦ rw (e, k) refl
    | inr k ↦ rw (e, k) (lookup-put_other url other c m h)
  ]
]

-- The file is not that of `url`, or it is an entry for `url` itself.
abbrev pub OwnFile : (url : Bytes) → Bytes × Bytes → Type 0
OwnFile url (u, filename) = (u ≡ url) ⊎ (filename ≢ url_to_filename url)

-- No entry for another URL uses the file of `url`.
abbrev pub Apart : (url : Bytes) → List (Bytes × CachedList) → Type 0
Apart url m = All (λ uc. OwnFile url (uc.0, uc.1.filename)) m

-- Another URL, with another file.
abbrev pub IsOther : (url : Bytes) → Bytes → Type 0
IsOther url u = (u ≢ url) × (url_to_filename u ≢ url_to_filename url)

-- The entry of a list that is downloaded anew.
abbrev pub stored_now : Bytes → ℕ → Option Bytes → CachedList
stored_now url now etag = record { fetched_at = now; etag = etag; filename = url_to_filename url }

module _ (disk : Disk) (laws : IsFaithful disk) (url : Bytes) where
  put-Apart :
      (u : Bytes) (c : CachedList) (m : List (Bytes × CachedList))
      → OwnFile url (u, c.filename)
      → Apart url m
      → Apart url (put u c m)
  unfolding put
  put-Apart u c [] h a = (h, tt)
  put-Apart u c ((v, d) ∷ m) h a = elim (Bool-cases (bytes_eq v u)) [
    | inl e ↦ rw e (subst (λ w. OwnFile url (w, c.filename)) (sym ((bytes_eq_iff v u).0 e)) h, a.1)
    | inr e ↦ rw e (a.0, put-Apart u c m h a.1)
  ]

  lookup-Apart :
      (u : Bytes) (c : CachedList) (m : List (Bytes × CachedList))
      → Apart url m
      → lookup u m ≡ some c
      → OwnFile url (u, c.filename)
  unfolding lookup
  lookup-Apart u c [] a e = ground arith
  lookup-Apart u c ((v, d) ∷ m) a e = elim (Bool-cases (bytes_eq v u)) [
    | inl k ↦ found (a.0) (rw k at e) ((bytes_eq_iff v u).0 k)
    | inr k ↦ lookup-Apart u c m a.1 (rw k at e)
  ]
    where
      some-eq : {a b : CachedList} → some a ≡ some b → a ≡ b
      some-eq p = cc

      found : OwnFile url (v, d.filename) → some d ≡ some c → v ≡ u → OwnFile url (u, c.filename)
      found o p q =
          subst (λ w. OwnFile url (w, c.filename)) q
            (subst (λ d. OwnFile url (v, d.filename)) (some-eq p) o)

  pub merge_one-Apart :
      (now : ℕ) (u : Bytes) (res : DownloadResult) (m : Merge disk)
      → OwnFile url (u, url_to_filename u)
      → Apart url m.0.map
      → Apart url (merge_one disk now u res m).0.map
  unfolding merge_one merge_fresh merge_not_modified
  merge_one-Apart now u (fresh body etag) (lists, dir, bodies) o a =
      elim (Bool-cases ((disk.write (url_to_filename u) body dir).0)) [
        | inl w ↦
            rw (w, merge_one, merge_fresh)
              (put-Apart u (record { fetched_at = now; etag = etag; filename = url_to_filename u })
                lists.map o a)
        | inr w ↦ rw (w, merge_one, merge_fresh) a
      ]
  merge_one-Apart now u not_modified (lists, dir, bodies) o a =
      elim (Option-cases (lookup u lists.map)) [
        | inl e ↦ rw (e, merge_one, merge_not_modified) a
        | inr (c, e) ↦
            rw (e, merge_one, merge_not_modified)
              (put-Apart u (record c { fetched_at = now }) lists.map
                (lookup-Apart u c lists.map a e) a)
      ]
  merge_one-Apart now u (stale_fallback body) (lists, dir, bodies) o a = a
  merge_one-Apart now u (failed e) m o a = a

  pub merge_downloads-Apart :
      (now : ℕ) (results : List (Bytes × DownloadResult)) (m : Merge disk)
      → All (λ r. OwnFile url (r.0, url_to_filename r.0)) results
      → Apart url m.0.map
      → Apart url (merge_downloads disk now results m).0.map
  unfolding merge_downloads
  merge_downloads-Apart now [] m o a = a
  merge_downloads-Apart now ((u, res) ∷ results) m o a =
      merge_downloads-Apart now results (merge_one disk now u res m) o.1
        (merge_one-Apart now u res m o.0 a)

  module _ (c : CachedList) (body : Bytes) (named : c.filename ≡ url_to_filename url) where
    -- The cache holds this entry for `url`, and its file this body.
    abbrev pub Holds : CachedLists → disk.Dir → Type 0
    Holds lists dir =
        (lookup url lists.map ≡ some c) × (disk.read (url_to_filename url) dir ≡ some body)

    merge_one-Holds :
        (now : ℕ) (u : Bytes) (res : DownloadResult) (m : Merge disk)
        → IsOther url u
        → Holds m.0 m.1
        → Holds (merge_one disk now u res m).0 (merge_one disk now u res m).1
    unfolding merge_one merge_fresh merge_not_modified
    merge_one-Holds now u (fresh text etag) (lists, dir, bodies) o h =
        elim (Bool-cases ((disk.write (url_to_filename u) text dir).0)) [
          | inl w ↦
              rw (w, merge_one, merge_fresh)
                (
                  lookup-put_other url u
                        (record { fetched_at = now; etag = etag; filename = url_to_filename u })
                        lists.map o.0
                      ∙ h.0,
                  laws.write-other (url_to_filename u) (url_to_filename url) text dir o.1 ∙ h.1,
                )
          | inr w ↦
              rw (w, merge_one, merge_fresh)
                (h.0, laws.write-other (url_to_filename u) (url_to_filename url) text dir o.1 ∙ h.1)
        ]
    merge_one-Holds now u not_modified (lists, dir, bodies) o h =
        elim (Option-cases (lookup u lists.map)) [
          | inl e ↦ rw (e, merge_one, merge_not_modified) h
          | inr (d, e) ↦
              rw (e, merge_one, merge_not_modified)
                (lookup-put_other url u (record d { fetched_at = now }) lists.map o.0 ∙ h.0, h.1)
        ]
    merge_one-Holds now u (stale_fallback text) (lists, dir, bodies) o h = h
    merge_one-Holds now u (failed e) m o h = h

    pub merge_downloads-Holds :
        (now : ℕ) (results : List (Bytes × DownloadResult)) (m : Merge disk)
        → All (λ r. IsOther url r.0) results
        → Holds m.0 m.1
        → Holds (merge_downloads disk now results m).0 (merge_downloads disk now results m).1
    unfolding merge_downloads
    merge_downloads-Holds now [] m o h = h
    merge_downloads-Holds now ((u, res) ∷ results) m o h =
        merge_downloads-Holds now results (merge_one disk now u res m) o.1
          (merge_one-Holds now u res m o.0 h)

    remove_all-read :
        (keep : List Bytes) (m : List (Bytes × CachedList)) (dir : disk.Dir)
        → is_kept disk keep url ≡ true
        → Apart url m
        → disk.read (url_to_filename url) (remove_all disk keep m dir)
          ≡ disk.read (url_to_filename url) dir
    unfolding remove_all
    remove_all-read keep [] dir k a = refl
    remove_all-read keep ((u, d) ∷ m) dir k a = elim (Bool-cases (is_kept disk keep u)) [
      | inl e ↦ rw e (remove_all-read keep m dir k a.1)
      | inr e ↦ rw e (remove_all-read keep m (disk.remove d.filename dir) k a.1 ∙ removed (a.0) e)
    ]
      where
        removed :
            OwnFile url (u, d.filename)
            → is_kept disk keep u ≡ false
            → disk.read (url_to_filename url) (disk.remove d.filename dir)
              ≡ disk.read (url_to_filename url) dir
        removed (inl same) e = absurd (ground (arith, same, e, k))
        removed (inr o) e = laws.remove-other d.filename (url_to_filename url) dir o

    pub prune-Holds :
        (keep : List Bytes) (lists : CachedLists) (dir : disk.Dir)
        → is_kept disk keep url ≡ true
        → Apart url lists.map
        → Holds lists dir
        → Holds (prune disk keep lists dir).0 (prune disk keep lists dir).1
    unfolding prune
    prune-Holds keep lists dir k a h = (
      prune-lookup disk keep lists dir url ∙ rw k h.0,
      remove_all-read keep lists.map dir k a ∙ h.1,
    )

    pub get_if_fresh-Holds :
        (now interval : ℕ) (lists : CachedLists) (dir : disk.Dir)
        → Holds lists dir
        → now - c.fetched_at < interval
        → get_if_fresh disk now interval lists dir url ≡ some body
    unfolding get_if_fresh
    get_if_fresh-Holds now interval lists dir h young =
        rw (h.0, get_if_fresh, lt→ltb (now - c.fetched_at) interval young, named) (h.1)

  pub merge_one-Holds_fresh :
      (now : ℕ) (body : Bytes) (etag : Option Bytes) (m : Merge disk)
      → (disk.write (url_to_filename url) body m.1).0 ≡ true
      → Holds
          (stored_now url now etag)
          body
          refl
          (merge_one disk now url (fresh body etag) m).0
          (merge_one disk now url (fresh body etag) m).1
  unfolding merge_one merge_fresh
  merge_one-Holds_fresh now body etag (lists, dir, bodies) w =
      rw (w, merge_one, merge_fresh)
        (
          lookup-put url (stored_now url now etag) lists.map,
          laws.write-read (url_to_filename url) body dir w,
        )
