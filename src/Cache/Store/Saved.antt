-- ===== src/Cache/Store/Saved.antt =====
-- The file of the metadata of `CachedLists` in src/blocklist.rs, from the start of the program in
-- src/main.rs to the SIGTERM that ends it. `to_string` and `from_str` are those of `serde_json`.
use dns_ligase.Cache.Store.{
  CachedList, CachedLists, Disk, DownloadResult, lookup, merge_fresh, merge_not_modified, merge_one,
  merge_downloads, Merge, is_kept, prune, save_to_disk, load_from_disk, load_or_default, fresh,
  not_modified, stale_fallback, failed,
}
use dns_ligase.Cache.Filename.{url_to_filename}
use dns_ligase.Io.{Result, ok, err, fault, Error}
use dns_ligase.Prelude.{
  ℕ, Bool, true, false, List, [], ◌∷◌, Option, some, if◌then◌else◌, Bytes, ◌≡◌, ◌⊎◌, inl, inr, refl,
  sym, ◌∙◌, ap, Bool-cases, arith, keep_if, length, ltb, ◌≤◌, Option-cases,
}

abbrev pub Metadata : Type 0
Metadata = List (Bytes × CachedList)

-- What the file holds after a call of `save_to_disk`. `saved` is what making the directory and
-- writing come to, and `left` what a write that fails has left.
unfoldable pub file_after :
    (Metadata → Bytes)
    → Result (Unit {0})
    → (left : Option Bytes) → CachedLists
    → Option Bytes
    → Option Bytes
unfolding save_to_disk
file_after to_string saved left lists file =
    let (result, wrote, lists') = save_to_disk saved lists in
    if wrote
    then elim result [ ok _ ↦ some (to_string lists.map) | err e ↦ left | fault f ↦ left ]
    else file

module _ (disk : Disk) (to_string : Metadata → Bytes) where
  -- The metadata in memory, the directory of the bodies, and the file.
  pub record Persistent : Type 0 where
    pub lists : CachedLists
    pub dir : disk.Dir
    pub file : Option Bytes

  -- `c.save_to_disk(path)`
  unfoldable pub save : Result (Unit {0}) → (left : Option Bytes) → Persistent → Persistent
  unfolding save_to_disk file_after
  save saved left p = record p {
    lists = (save_to_disk saved p.lists).2;
    file = file_after to_string saved left p.lists p.file;
  }

  -- The task of `main` that SIGTERM wakes takes the lock of the cache, saves, and ends the program.
  unfoldable pub terminate : Result (Unit {0}) → (left : Option Bytes) → Persistent → Persistent
  unfolding save
  terminate saved left p = save saved left p

  -- What happens to it while the program runs, if no save fails.
  pub data Persists (p : Persistent) : Persistent → Type 0 where
    unchanged : Persists p p
    merges :
        {q : Persistent} (now : ℕ) (downloaded : List (Bytes × DownloadResult))
        → Persists p q
        → Persists p (record q {
          lists = (merge_downloads disk now downloaded (q.lists, q.dir, [])).0;
          dir = (merge_downloads disk now downloaded (q.lists, q.dir, [])).1;
        })
    prunes :
        {q : Persistent} (keep : List Bytes)
        → Persists p q
        → Persists p (record q {
          lists = (prune disk keep q.lists q.dir).0;
          dir = (prune disk keep q.lists q.dir).1;
        })
    saves : {q : Persistent} (left : Option Bytes) → Persists p q → Persists p (save (ok tt) left q)

-- A change is marked.
abbrev Touched : CachedLists → CachedLists → Type 0
Touched a b = (b.dirty ≡ true) ⊎ (b ≡ a)

Touched-trans : (a b c : CachedLists) → Touched a b → Touched b c → Touched a c
Touched-trans a b c h (inl k) = inl k
Touched-trans a b c (inl h) (inr k) = inl (ap (λ l. l.dirty) k ∙ h)
Touched-trans a b c (inr h) (inr k) = inr (k ∙ h)

keep_if-length : {A : Type 0} (p : A → Bool) (xs : List A) → length (keep_if p xs) ≤ length xs
keep_if-length p [] = omega arith
keep_if-length p (a ∷ xs) = ground (arith, keep_if-length p xs)

-- Nothing is dropped if nothing gets shorter.
keep_if-all :
    {A : Type 0} (p : A → Bool) (xs : List A)
    → ltb (length (keep_if p xs)) (length xs) ≡ false
    → keep_if p xs ≡ xs
keep_if-all p [] h = refl
keep_if-all p (a ∷ xs) h = elim (Bool-cases (p a)) [
  | inl kept ↦ rw kept (ap (λ ys. a ∷ ys) (keep_if-all p xs (ground (arith, kept))))
  | inr gone ↦ absurd (ground (arith, gone, keep_if-length p xs))
]

cleared : (lists : CachedLists) → record lists { dirty = false } ≡ (save_to_disk (ok tt) lists).2
unfolding save_to_disk
cleared lists = elim (Bool-cases lists.dirty) [
  | inl dirty ↦ rw (dirty, save_to_disk) refl
  | inr clean ↦ rw (clean, save_to_disk) refl
]

module _ (disk : Disk) where
  merge_one-Touched :
      (now : ℕ) (url : Bytes) (res : DownloadResult) (m : Merge disk)
      → Touched m.0 (merge_one disk now url res m).0
  unfolding merge_one merge_fresh merge_not_modified
  merge_one-Touched now url (fresh body etag) (lists, dir, bodies) =
      elim (Bool-cases ((disk.write (url_to_filename url) body dir).0)) [
        | inl w ↦ rw (w, merge_one, merge_fresh) (inl refl)
        | inr w ↦ rw (w, merge_one, merge_fresh) (inr refl)
      ]
  merge_one-Touched now url not_modified (lists, dir, bodies) =
      elim (Option-cases (lookup url lists.map)) [
        | inl e ↦ rw (e, merge_one, merge_not_modified) (inr refl)
        | inr (c, e) ↦ rw (e, merge_one, merge_not_modified) (inl refl)
      ]
  merge_one-Touched now url (stale_fallback body) (lists, dir, bodies) = inr refl
  merge_one-Touched now url (failed e) m = inr refl

  merge_downloads-Touched :
      (now : ℕ) (results : List (Bytes × DownloadResult)) (m : Merge disk)
      → Touched m.0 (merge_downloads disk now results m).0
  unfolding merge_downloads
  merge_downloads-Touched now [] m = inr refl
  merge_downloads-Touched now ((url, res) ∷ results) m =
      Touched-trans m.0 (merge_one disk now url res m).0
        (merge_downloads disk now results (merge_one disk now url res m)).0
        (merge_one-Touched now url res m)
        (merge_downloads-Touched now results (merge_one disk now url res m))

  prune-Touched :
      (keep : List Bytes) (lists : CachedLists) (dir : disk.Dir)
      → Touched lists (prune disk keep lists dir).0
  unfolding prune
  prune-Touched keep lists dir =
      shorter (keep_if (λ uc. is_kept disk keep uc.0) lists.map)
        (keep_if-all (λ uc. is_kept disk keep uc.0) lists.map)
    where
      shorter :
          (kept : Metadata)
          → (ltb (length kept) (length lists.map) ≡ false → kept ≡ lists.map)
          → Touched lists (record {
            map = kept;
            dirty = if ltb (length kept) (length lists.map) then true else lists.dirty;
          })
      shorter kept all = elim (Bool-cases (ltb (length kept) (length lists.map))) [
        | inl h ↦ rw h (inl refl)
        | inr h ↦ rw (h, all h) (inr refl)
      ]

  module _ (to_string : Metadata → Bytes) (from_str : Bytes → Option Metadata) where
    -- Without the mark, the file holds what is in memory.
    abbrev Synced : Persistent disk to_string → Type 0
    Synced p = p.lists.dirty ≡ false → load_or_default p.file from_str ≡ p.lists

    Touched-Synced :
        (p : Persistent disk to_string) (lists : CachedLists) (dir : disk.Dir)
        → Touched p.lists lists
        → Synced p
        → Synced (record p { lists = lists; dir = dir })
    Touched-Synced p lists dir (inl h) s clean = ground (arith, h, clean)
    Touched-Synced p lists dir (inr h) s clean = s (sym (ap (λ l. l.dirty) h) ∙ clean) ∙ sym h

    module _ (reads_back : (m : Metadata) → from_str (to_string m) ≡ some m) where
      save-load :
          (left : Option Bytes) (p : Persistent disk to_string)
          → Synced p
          → load_or_default (save disk to_string (ok tt) left p).file from_str
            ≡ record p.lists { dirty = false }
      unfolding save file_after save_to_disk load_or_default load_from_disk
      save-load left p s = elim (Bool-cases p.lists.dirty) [
        | inl dirty ↦ rw (dirty, save, file_after, save_to_disk, reads_back p.lists.map) refl
        | inr clean ↦
            rw (clean, save, file_after, save_to_disk)
              (s clean ∙ ap (λ d. record p.lists { dirty = d }) clean)
      ]

      save-Synced :
          (left : Option Bytes) (p : Persistent disk to_string)
          → Synced p
          → Synced (save disk to_string (ok tt) left p)
      unfolding save save_to_disk
      save-Synced left p s clean = save-load left p s ∙ cleared p.lists

      Persists-Synced :
          (p q : Persistent disk to_string) → Synced p → Persists disk to_string p q → Synced q
      Persists-Synced p q s unchanged = s
      Persists-Synced p q s (merges {q = q'} now downloaded r) =
          Touched-Synced q' (merge_downloads disk now downloaded (q'.lists, q'.dir, [])).0
            (merge_downloads disk now downloaded (q'.lists, q'.dir, [])).1
            (merge_downloads-Touched now downloaded (q'.lists, q'.dir, []))
            (Persists-Synced p q' s r)
      Persists-Synced p q s (prunes {q = q'} keep r) =
          Touched-Synced q' (prune disk keep q'.lists q'.dir).0 (prune disk keep q'.lists q'.dir).1
            (prune-Touched keep q'.lists q'.dir) (Persists-Synced p q' s r)
      Persists-Synced p q s (saves {q = q'} left r) = save-Synced left q' (Persists-Synced p q' s r)

      -- If `from_str` reads what `to_string` writes, then whatever the program merges, prunes and
      -- saves from its start to a SIGTERM, as long as no save fails, that of the SIGTERM included, a
      -- restart afterwards loads the metadata that was in memory.
      pub restart-load :
          (contents left : Option Bytes) (dir : disk.Dir) (q : Persistent disk to_string)
          → Persists disk to_string
              (record { lists = load_or_default contents from_str; dir = dir; file = contents })
              q
          → load_or_default (terminate disk to_string (ok tt) left q).file from_str
            ≡ record q.lists { dirty = false }
      unfolding terminate
      restart-load contents left dir q r = save-load left q (
          Persists-Synced
            (record { lists = load_or_default contents from_str; dir = dir; file = contents }) q
            (λ clean. refl) r)

-- After a save that fails, a second one reports success without writing anything: the metadata in
-- memory is still what it was, and the file what the first one has left.
pub failed_save-lost :
    (disk : Disk) (to_string : Metadata → Bytes) (e : Error) (saved : Result (Unit {0}))
    (left left' : Option Bytes) (p : Persistent disk to_string)
    → p.lists.dirty ≡ true
    → let once = save disk to_string (err e) left p in
      ((save_to_disk saved once.lists).0 ≡ ok tt)
      × ((save disk to_string saved left' once).lists.map ≡ p.lists.map)
      × ((save disk to_string saved left' once).file ≡ left)
unfolding save file_after save_to_disk
failed_save-lost disk to_string e saved left left' p dirty = ground arith
