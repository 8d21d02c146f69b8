-- ===== src/Cache/Fetch/Fallback.antt =====
-- When a download of src/blocklist.rs falls back on the body that is on disk.
use dns_ligase.Cache.Fetch.{
  Web, Response, Reply, got, broken, download_one, respond, stale_or_failed, fresh_body, refetch,
}
use dns_ligase.Prelude.{
  Bool-cases, ◌↔◌, ◌++◌, ◌⊎◌, sym, ◌∙◌, false, none, Option, some, ◌≡◌, refl, arith, inl, inr,
  Bytes, ◌==◌, ==_iff,
}
use dns_ligase.Cache.Store.{failed, fresh, not_modified, DownloadResult}
use dns_ligase.Text.Search.{codes}
use mathlib.Core.Path.{subst}

module _ (web : Web) where
  -- The server sent a list, and the transfer of its body broke off.
  abbrev pub BrokeOff : Reply Response → Type 0
  BrokeOff (got resp) = (resp.status ≡ 200) × ((e : Bytes) × (resp.text ≡ broken e))
  BrokeOff (broken e) = ⊥

  abbrev pub IsFailed : DownloadResult → Type 0
  IsFailed (failed message) = Unit
  IsFailed _ = ⊥

  respond-IsFailed :
      (client : web.Client) (url body : Bytes) (resp : Response)
      → IsFailed (respond web client url (some body) resp) ↔ BrokeOff (got resp)
  unfolding respond
  respond-IsFailed client url body resp = elim (Bool-cases (resp.status == 304)) [
    | inl e ↦ rw (e, respond) ((λ h. absurd h), λ h. ground arith)
    | inr e ↦ elim (Bool-cases (resp.status == 200)) [
      | inl k ↦ rw (e, k, respond) (body_read ((==_iff resp.status 200).0 k) resp.text)
      | inr k ↦ rw (e, k, respond) ((λ h. absurd h), λ h. ground arith)
    ]
  ]
    where
      body_read :
          resp.status ≡ 200
          → (t : Reply Bytes)
          → IsFailed (elim t as (λ _. DownloadResult) [
            | got body ↦ fresh body resp.etag
            | broken e ↦ failed (codes "read body: " ++ e)
          ])
            ↔ ((resp.status ≡ 200) × ((e : Bytes) × (t ≡ broken e)))
      body_read ok_status (got b) = ((λ h. absurd h), λ h. ground arith)
      body_read ok_status (broken e) = ((λ h. (ok_status, (e, refl))), λ h. tt)

  -- With a body on disk a download fails just if a list was sent and its body broke off: this is
  -- the one failure on which the body on disk is not served.
  pub download_one-IsFailed :
      (client : web.Client) (url : Bytes) (etag : Option Bytes) (body : Bytes)
      → IsFailed (download_one web client url etag (some body))
        ↔ BrokeOff (web.get 0 client url etag)
  unfolding download_one
  download_one-IsFailed client url etag body = replied (web.get 0 client url etag)
    where
      replied :
          (r : Reply Response)
          → IsFailed (elim r as (λ _. DownloadResult) [
            | got resp ↦ respond web client url (some body) resp
            | broken e ↦ stale_or_failed web (some body) (codes "request failed: " ++ e)
          ])
            ↔ BrokeOff r
      replied (got resp) = respond-IsFailed client url body resp
      replied (broken e) = (λ h. h, λ h. h)

  -- A list was sent; or the body that a 304 speaks of is missing, and the second request, whatever its
  -- status, brought a text.
  abbrev pub IsSentAs :
      web.Client → Bytes → Option Bytes → Reply Response → Bytes → Option Bytes → Type 0
  IsSentAs client url cached (got resp) body etag =
      ((resp.status ≡ 200) × (resp.text ≡ got body) × (resp.etag ≡ etag))
      ⊎ ((resp.status ≡ 304)
          × (cached ≡ none)
          × ((again : Response) × (web.get 1 client url none ≡ got again)
              × (again.text ≡ got body)
              × (again.etag ≡ etag)))
  IsSentAs client url cached (broken e) body etag = ⊥

  abbrev read_body : Option Bytes → Reply Bytes → DownloadResult
  read_body etag (got body) = fresh body etag
  read_body etag (broken e) = failed (codes "read body: " ++ e)

  fresh_body-read : (resp : Response) → fresh_body web resp ≡ read_body resp.etag resp.text
  unfolding fresh_body
  fresh_body-read resp = cases resp.text
    where
      cases :
          (t : Reply Bytes)
          → elim t as (λ _. DownloadResult) [
            | got body ↦ fresh body resp.etag
            | broken e ↦ failed (codes "read body: " ++ e)
          ]
            ≡ read_body resp.etag t
      cases (got body) = refl
      cases (broken e) = refl

  read_body-fresh :
      (etag etag' : Option Bytes) (body : Bytes) (t : Reply Bytes)
      → (read_body etag t ≡ fresh body etag') ↔ ((t ≡ got body) × (etag ≡ etag'))
  read_body-fresh etag etag' body (got b) = (λ h. ground arith, λ h. ground arith)
  read_body-fresh etag etag' body (broken e) = (λ h. ground arith, λ h. ground arith)

  refetch-fresh :
      (client : web.Client) (url body : Bytes) (etag : Option Bytes)
      → (refetch web client url ≡ fresh body etag) ↔ (
          (again : Response) × (web.get 1 client url none ≡ got again)
          × (again.text ≡ got body)
          × (again.etag ≡ etag))
  unfolding refetch
  refetch-fresh client url body etag = replied (web.get 1 client url none)
    where
      got-eq : {a b : Response} → got a ≡ got b → a ≡ b
      got-eq e = cc

      replied :
          (r : Reply Response)
          → (elim r as (λ _. DownloadResult) [
            | got resp ↦ fresh_body web resp
            | broken e ↦ failed (codes "refetch failed: " ++ e)
          ]
              ≡ fresh body etag)
            ↔ ((again : Response) × (r ≡ got again) × (again.text ≡ got body) × (again.etag ≡ etag))
      replied (got resp) =
          let sent = read_body-fresh resp.etag etag body resp.text in
          (
            λ h. (let (t, e) = sent.0 (sym (fresh_body-read resp) ∙ h) in (resp, refl, t, e)),
            λ (again, r, t, e).
                fresh_body-read resp
                ∙ sent.1
                    (subst (λ v. (v.text ≡ got body) × (v.etag ≡ etag)) (sym (got-eq r)) (t, e)),
          )
      replied (broken e) = (λ h. ground arith, λ h. ground arith)

  respond-fresh :
      (client : web.Client) (url body : Bytes) (etag cached : Option Bytes) (resp : Response)
      → (respond web client url cached resp ≡ fresh body etag)
        ↔ IsSentAs client url cached (got resp) body etag
  unfolding respond
  respond-fresh client url body etag cached resp = elim (Bool-cases (resp.status == 304)) [
    | inl e ↦ rw (e, respond) (missing ((==_iff resp.status 304).0 e) cached)
    | inr e ↦ elim (Bool-cases (resp.status == 200)) [
      | inl k ↦ rw (e, k, respond) (sent ((==_iff resp.status 200).0 k))
      | inr k ↦ rw (e, k, respond) (no_list e k cached)
    ]
  ]
    where
      missing :
          resp.status ≡ 304
          → (cached : Option Bytes)
          → (elim cached as (λ _. DownloadResult) [
            | some body ↦ not_modified
            | none ↦ refetch web client url
          ]
              ≡ fresh body etag)
            ↔ IsSentAs client url cached (got resp) body etag
      missing s (some b) = (λ h. ground arith, λ h. ground arith)
      missing s none =
          let again = refetch-fresh client url body etag in
          (
            λ h. inr (s, refl, again.0 h),
            λ h. elim h [
              | inl (k, t, e) ↦ absurd (omega (arith, s, k))
              | inr (k, c, a) ↦ again.1 a
            ],
          )

      sent :
          resp.status ≡ 200
          → (fresh_body web resp ≡ fresh body etag)
            ↔ IsSentAs client url cached (got resp) body etag
      sent s =
          let read = read_body-fresh resp.etag etag body resp.text in
          (
            λ h. (let (t, e) = read.0 (sym (fresh_body-read resp) ∙ h) in inl (s, t, e)),
            λ h. elim h [
              | inl (k, t, e) ↦ fresh_body-read resp ∙ read.1 (t, e)
              | inr (k, c, a) ↦ absurd (omega (arith, s, k))
            ],
          )

      no_list :
          (resp.status == 304) ≡ false
          → (resp.status == 200) ≡ false
          → (cached : Option Bytes)
          → (stale_or_failed web cached (codes "HTTP " ++ resp.status_text) ≡ fresh body etag)
            ↔ IsSentAs client url cached (got resp) body etag
      no_list e k none = (λ h. ground arith, λ h. ground (arith, e, k))
      no_list e k (some b) = (λ h. ground arith, λ h. ground (arith, e, k))

  -- A download brings a list to store just if a response with status 200 brought it, or the body that
  -- a 304 speaks of is missing and the second request brought a text, whatever its status.
  pub download_one-fresh :
      (client : web.Client) (url body : Bytes) (etag new_etag cached : Option Bytes)
      → (download_one web client url etag cached ≡ fresh body new_etag)
        ↔ IsSentAs client url cached (web.get 0 client url etag) body new_etag
  unfolding download_one
  download_one-fresh client url body etag new_etag cached =
      replied (web.get 0 client url etag) cached
    where
      replied :
          (r : Reply Response) (cached : Option Bytes)
          → (elim r as (λ _. DownloadResult) [
            | got resp ↦ respond web client url cached resp
            | broken e ↦ stale_or_failed web cached (codes "request failed: " ++ e)
          ]
              ≡ fresh body new_etag)
            ↔ IsSentAs client url cached r body new_etag
      replied (got resp) cached = respond-fresh client url body new_etag cached resp
      replied (broken e) none = (λ h. ground arith, λ h. absurd h)
      replied (broken e) (some b) = (λ h. ground arith, λ h. absurd h)
