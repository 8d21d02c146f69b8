-- ===== src/Program/Build/Reuse.antt =====
-- What one `create_blocklist` of src/main.rs downloads, the next one takes from the cache.
use dns_ligase.Cache.Filename.{url_to_filename}
use dns_ligase.Cache.Store.{
  CachedLists, lookup, Disk, DownloadResult, fresh, get_if_fresh, plan_fetches, merge_one,
  merge_downloads, Merge, is_kept, prune, save_to_disk,
}
use dns_ligase.Cache.Store.Lasting.{
  IsFaithful, OwnFile, Apart, IsOther, Holds, merge_downloads-Apart, merge_downloads-Holds,
  prune-Holds, get_if_fresh-Holds, stored_now, merge_one-Holds_fresh, merge_one-Apart,
}
use dns_ligase.Io.{Result}
use dns_ligase.Prelude.{
  ℕ, ◌-◌, ◌<◌, ◌≡◌, Bool, true, false, List, [], ◌∷◌, ◌++◌, Option, none, some, if◌then◌else◌,
  Bytes, bytes_eq, any, All, refl, sym, ◌∙◌, ap, arith, Bool-cases, Option-cases, inl, inr,
}
use dns_ligase.Program.Build.{body_of, plan_lists, merge_lists, finish_lists, all_urls, cache_ttl}
use dns_ligase.Program.Config.{Config}
use mathlib.Core.Path.{subst}
use dns_ligase.Text.Search.{bytes_eq_iff, bytes_eq_refl}

last_none : (o g : Option Bytes) (q : Bool) → o ≡ (if q then g else none) → g ≡ none → o ≡ none
last_none o g q h n = ground (arith, h, n)

last_some :
    (o g : Option Bytes) (b : Bytes) (q same : Bool)
    → o ≡ (if q then g else none)
    → g ≡ some b
    → same ≡ true
    → elim o as (λ _. Option Bytes) [
      | some later ↦ some later
      | none ↦ if same then some b else none
    ]
      ≡ some b
last_some none g b q same h k e = rw e refl
last_some (some later) g b q same h k e = ground (arith, h, k)

not_last :
    (o : Option Bytes) (b : Bytes) (same : Bool)
    → same ≡ false
    → elim o as (λ _. Option Bytes) [
      | some later ↦ some later
      | none ↦ if same then some b else none
    ]
      ≡ o
not_last none b same e = rw e refl
not_last (some later) b same e = refl

bytes_eq_sym_false : (a b : Bytes) → bytes_eq a b ≡ false → bytes_eq b a ≡ false
bytes_eq_sym_false a b h = elim (Bool-cases (bytes_eq b a)) [
  | inl e ↦ absurd (ground (arith, bytes_eq_refl a, h, (bytes_eq_iff b a).0 e))
  | inr e ↦ e
]

module _ (disk : Disk) where
  -- A plan has the body of each of its URLs that is fresh.
  plan_fetches-body_of :
      (now interval : ℕ) (lists : CachedLists) (dir : disk.Dir) (urls : List Bytes) (url : Bytes)
      → body_of url (plan_fetches disk now interval lists dir urls).0
        ≡ (if any (bytes_eq url) urls then get_if_fresh disk now interval lists dir url else none)
  unfolding plan_fetches body_of
  plan_fetches-body_of now interval lists dir [] url = refl
  plan_fetches-body_of now interval lists dir (u ∷ urls) url = elim (Bool-cases (bytes_eq url u)) [
    | inl e ↦
        subst Planned (sym ((bytes_eq_iff url u).0 e))
          (at_head (plan_fetches-body_of now interval lists dir urls u))
    | inr e ↦ elsewhere e (plan_fetches-body_of now interval lists dir urls url)
  ]
    where
      Planned : Bytes → Type 0
      Planned v = body_of v (plan_fetches disk now interval lists dir (u ∷ urls)).0 ≡ (
          if any (bytes_eq v) (u ∷ urls) then get_if_fresh disk now interval lists dir v else none)

      bodies : List (Bytes × Bytes)
      bodies = (plan_fetches disk now interval lists dir urls).0

      at_head :
          body_of u bodies
            ≡ (if any (bytes_eq u) urls then get_if_fresh disk now interval lists dir u else none)
          → Planned u
      at_head ih = elim (Option-cases (get_if_fresh disk now interval lists dir u)) [
        | inl n ↦
            rw (n, plan_fetches, bytes_eq_refl u)
              (last_none (body_of u bodies) (get_if_fresh disk now interval lists dir u)
                (any (bytes_eq u) urls) ih n)
        | inr (b, k) ↦
            rw (k, plan_fetches, body_of, bytes_eq_refl u)
              (last_some (body_of u bodies) (get_if_fresh disk now interval lists dir u) b
                (any (bytes_eq u) urls) (bytes_eq u u) ih k (bytes_eq_refl u))
      ]

      elsewhere :
          bytes_eq url u ≡ false
          → body_of url bodies ≡ (
              if any (bytes_eq url) urls
              then get_if_fresh disk now interval lists dir url
              else none)
          → Planned url
      elsewhere e ih = elim (Option-cases (get_if_fresh disk now interval lists dir u)) [
        | inl n ↦ rw (n, e, plan_fetches) ih
        | inr (b, k) ↦
            rw (k, e, plan_fetches, body_of)
              (not_last (body_of url bodies) b (bytes_eq u url) (bytes_eq_sym_false url u e) ∙ ih)
      ]

  merge_downloads-append :
      (now : ℕ) (a b : List (Bytes × DownloadResult)) (m : Merge disk)
      → merge_downloads disk now (a ++ b) m
        ≡ merge_downloads disk now b (merge_downloads disk now a m)
  unfolding merge_downloads
  merge_downloads-append now [] b m = refl
  merge_downloads-append now ((u, res) ∷ a) b m =
      merge_downloads-append now a b (merge_one disk now u res m)

  IsOther-OwnFile :
      (url : Bytes) (rs : List (Bytes × DownloadResult))
      → All (λ r. IsOther url r.0) rs
      → All (λ r. OwnFile url (r.0, url_to_filename r.0)) rs
  IsOther-OwnFile url [] h = tt
  IsOther-OwnFile url (r ∷ rs) h = (inr h.0.1, IsOther-OwnFile url rs h.1)

  save_to_disk-map :
      (saved : Result (Unit {0})) (lists : CachedLists)
      → (save_to_disk saved lists).2.map ≡ lists.map
  unfolding save_to_disk
  save_to_disk-map saved lists = ground arith

  module _ (laws : IsFaithful disk) (now : ℕ) (url body : Bytes) (etag : Option Bytes) where
    abbrev Held : CachedLists → disk.Dir → Type 0
    Held lists dir = Holds disk laws url (stored_now url now etag) body refl lists dir

    merged-Held :
        (before after : List (Bytes × DownloadResult)) (m : Merge disk)
        → (disk.write (url_to_filename url) body (merge_downloads disk now before m).1).0 ≡ true
        → Apart url m.0.map
        → All (λ r. OwnFile url (r.0, url_to_filename r.0)) before
        → All (λ r. IsOther url r.0) after
        → let m' = merge_downloads disk now (before ++ (url, fresh body etag) ∷ after) m in
          Held m'.0 m'.1 × Apart url m'.0.map
    unfolding merge_downloads
    merged-Held before after m w a o others =
        let m₁ = merge_downloads disk now before m in
        let m₂ = merge_one disk now url (fresh body etag) m₁ in
        subst (λ m'. Held m'.0 m'.1 × Apart url m'.0.map)
          (sym (merge_downloads-append now before ((url, fresh body etag) ∷ after) m))
          (
            merge_downloads-Holds disk laws url (stored_now url now etag) body refl now after m₂
                others (merge_one-Holds_fresh disk laws url now body etag m₁ w),
            merge_downloads-Apart disk laws url now after m₂ (IsOther-OwnFile url after others) (
                merge_one-Apart disk laws url now url (fresh body etag) m₁ (inl refl)
                  (merge_downloads-Apart disk laws url now before m o a)),
          )

    finished-Held :
        (cfg : Config) (saved : Result (Unit {0})) (lists : CachedLists) (dir : disk.Dir)
        → any (bytes_eq url) (all_urls cfg.blocklists) ≡ true
        → Held lists dir
        → Apart url lists.map
        → Held
            (finish_lists disk cfg saved (lists, dir)).0
            (finish_lists disk cfg saved (lists, dir)).1
    unfolding finish_lists is_kept
    finished-Held cfg saved lists dir listed h a =
        let kept =
          prune-Holds disk laws url (stored_now url now etag) body refl (all_urls cfg.blocklists)
            lists dir listed a h in
        (
          ap (lookup url)
                (save_to_disk-map saved (prune disk (all_urls cfg.blocklists) lists dir).0)
              ∙ kept.0,
          kept.1,
        )

  -- A list downloaded in one run of `create_blocklist`, whose URL is that of no later download,
  -- whose body was written, and whose URL the configuration has, is among the bodies that the plan of
  -- the next run starts with, if that run's configuration has the URL too and its plan is made
  -- within its time to live; on a disk whose files are independent of each other, if no other URL of
  -- the downloads and no other entry of the cache uses the same file, and whatever the saving of
  -- the metadata comes to.
  pub merged-planned :
      (laws : IsFaithful disk) (cfg cfg' : Config) (now later : ℕ) (saved : Result (Unit {0}))
      (url body : Bytes) (etag : Option Bytes) (before after : List (Bytes × DownloadResult))
      (lists : CachedLists) (dir : disk.Dir)
      → (disk.write
          (url_to_filename url)
          body
          (merge_downloads disk now before (lists, dir, [])).1).0
        ≡ true
      → Apart url lists.map
      → All (λ r. OwnFile url (r.0, url_to_filename r.0)) before
      → All (λ r. IsOther url r.0) after
      → any (bytes_eq url) (all_urls cfg.blocklists) ≡ true
      → any (bytes_eq url) (all_urls cfg'.blocklists) ≡ true
      → later - now < cache_ttl cfg'.blocklists
      → body_of url
          (plan_lists disk cfg' later (
            finish_lists disk cfg saved
              (merge_lists disk now (before ++ (url, fresh body etag) ∷ after) (lists, dir)).1)).0
        ≡ some body
  unfolding plan_lists merge_lists
  merged-planned laws cfg cfg' now later saved url body etag before after lists dir w a o others
        listed listed' young =
      let m' =
        merge_downloads disk now (before ++ (url, fresh body etag) ∷ after) (lists, dir, []) in
      let (held, apart) =
        merged-Held laws now url body etag before after (lists, dir, []) w a o others in
      let kept = finished-Held laws now url body etag cfg saved m'.0 m'.1 listed held apart in
      let stored = finish_lists disk cfg saved (m'.0, m'.1) in
      plan_fetches-body_of later (cache_ttl cfg'.blocklists) stored.0 stored.1
        (all_urls cfg'.blocklists) url
      ∙ rw listed' (
          get_if_fresh-Holds disk laws url (stored_now url now etag) body refl later
            (cache_ttl cfg'.blocklists) stored.0 stored.1 kept young)
