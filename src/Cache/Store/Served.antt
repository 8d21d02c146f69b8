-- ===== src/Cache/Store/Served.antt =====
-- `CachedLists` of src/blocklist.rs after a download, a plan and a prune.
use dns_ligase.Cache.Filename.{url_to_filename}
use dns_ligase.Cache.Store.{
  CachedList, CachedLists, Disk, lookup, put, fresh, get_if_fresh, job, plan_fetches, Merge,
  merge_fresh, merge_one, is_kept, prune,
}
use dns_ligase.Prelude.{
  ℕ, ◌-◌, ◌<◌, ◌≡◌, Bool, true, false, not, List, [], ◌∷◌, map, Option, none, some, if◌then◌else◌,
  Bytes, bytes_eq, keep_if, refl, arith, Bool-cases, inl, inr, lt→ltb, Option-cases,
}
use dns_ligase.Text.Search.{bytes_eq_iff, bytes_eq_refl}

pub lookup-put :
    (url : Bytes) (c : CachedList) (m : List (Bytes × CachedList))
    → lookup url (put url c m) ≡ some c
unfolding lookup put
lookup-put url c [] = ground (arith, bytes_eq_refl url)
lookup-put url c ((u, d) ∷ m) = elim (Bool-cases (bytes_eq u url)) [
  | inl e ↦ rw (e, e) refl
  | inr e ↦ rw (e, e) (lookup-put url c m)
]

abbrev pub is_some : Option Bytes → Bool
is_some none = false
is_some (some b) = true

module _ (disk : Disk) where
  -- A list that was downloaded, and whose body was written, is served from the disk until the
  -- interval is over, if a body that was written can be read.
  pub merge_one-get_if_fresh :
      (now later interval : ℕ) (url body : Bytes) (etag : Option Bytes) (m : Merge disk)
      → (disk.write (url_to_filename url) body m.1).0 ≡ true
      → ((file text : Bytes) (dir : disk.Dir)
          → (disk.write file text dir).0 ≡ true
          → disk.read file (disk.write file text dir).1 ≡ some text)
      → later - now < interval
      → get_if_fresh disk later interval
          (merge_one disk now url (fresh body etag) m).0
          (merge_one disk now url (fresh body etag) m).1
          url
        ≡ some body
  unfolding get_if_fresh merge_one merge_fresh
  merge_one-get_if_fresh now later interval url body etag (lists, dir, bodies) w law h =
      rw
        (
          w,
          get_if_fresh,
          lookup-put url (record { fetched_at = now; etag = etag; filename = url_to_filename url })
              lists.map,
          lt→ltb (later - now) interval h,
          merge_one,
          merge_fresh,
          w,
        )
        (law (url_to_filename url) body dir w)

  job-url : (lists : CachedLists) (url : Bytes) → (job disk lists url).url ≡ url
  unfolding job
  job-url lists url = ground arith

  -- A plan serves exactly the URLs that are fresh and downloads exactly the others, in the order of the
  -- configuration.
  pub plan_fetches-splits :
      (now interval : ℕ) (lists : CachedLists) (dir : disk.Dir) (urls : List Bytes)
      → (map (λ b. b.0) (plan_fetches disk now interval lists dir urls).0
          ≡ keep_if (λ url. is_some (get_if_fresh disk now interval lists dir url)) urls)
        × (map (λ j. j.url) (plan_fetches disk now interval lists dir urls).1
            ≡ keep_if (λ url. not (is_some (get_if_fresh disk now interval lists dir url))) urls)
  unfolding plan_fetches
  plan_fetches-splits now interval lists dir [] = (refl, refl)
  plan_fetches-splits now interval lists dir (url ∷ urls) =
      let ih = plan_fetches-splits now interval lists dir urls in
      elim (Option-cases (get_if_fresh disk now interval lists dir url)) [
        | inl e ↦ rw (e, plan_fetches, ih.0, ih.1, job-url lists url) (refl, refl)
        | inr (body, e) ↦ rw (e, plan_fetches, ih.0, ih.1) (refl, refl)
      ]

  kept_lookup :
      (keep : List Bytes) (m : List (Bytes × CachedList)) (url : Bytes)
      → lookup url (keep_if (λ uc. is_kept disk keep uc.0) m)
        ≡ (if is_kept disk keep url then lookup url m else none)
  unfolding lookup
  kept_lookup keep [] url = ground arith
  kept_lookup keep ((u, c) ∷ m) url =
      let ih = kept_lookup keep m url in
      elim (Bool-cases (bytes_eq u url)) [
        | inl e ↦ elim (Bool-cases (is_kept disk keep url)) [
          | inl k ↦ rw ((bytes_eq_iff u url).0 e, k, bytes_eq_refl url) refl
          | inr k ↦ rw ((bytes_eq_iff u url).0 e, k) (rw k at ih)
        ]
        | inr e ↦ elim (Bool-cases (is_kept disk keep u)) [
          | inl k ↦ rw (k, e) ih
          | inr k ↦ rw (k, e) ih
        ]
      ]

  -- After a prune the cache knows what it knew of the URLs that are kept, and nothing of others.
  pub prune-lookup :
      (keep : List Bytes) (lists : CachedLists) (dir : disk.Dir) (url : Bytes)
      → lookup url (prune disk keep lists dir).0.map
        ≡ (if is_kept disk keep url then lookup url lists.map else none)
  unfolding prune
  prune-lookup keep lists dir url = kept_lookup keep lists.map url
