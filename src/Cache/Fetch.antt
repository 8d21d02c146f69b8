-- ===== src/Cache/Fetch.antt =====
-- The downloads of src/blocklist.rs: `client_for_url`, `client_key`, `download_one` and
-- `download_jobs`. The crates `url` and `reqwest` are the parameter `Web`.
pub mod Fallback
use dns_ligase.Cache.Filename.{url_to_filename}
use dns_ligase.Cache.Store.{
  Disk, FetchJob, DownloadResult, fresh, not_modified, stale_fallback, failed,
}
use dns_ligase.Dns.Message.{Ipv4Addr}
use dns_ligase.Prelude.{
  ◌==◌, if◌then◌else◌, bytes_eq, map, ◌↔◌, ℕ, zero, suc, Bool, true, false, List, [], ◌∷◌, ◌++◌,
  Option, none, some, ◌≡◌, ◌≢◌, refl, arith, inl, inr, Bytes,
}
use dns_ligase.Text.Search.{codes}
use dns_ligase.Io.{ok, err, fault, Result}

-- What a request or the reading of a body comes to: a value, or the text of an error.
pub data Reply (A : Type 0) : Type 0 where
  got : A → Reply A
  broken : Bytes → Reply A

pub record Response : Type 0 where
  pub status : ℕ
  -- the status as it is printed
  pub status_text : Bytes
  pub etag : Option Bytes
  pub text : Reply Bytes

pub record Web : Type 1 where
  pub Client : Type 0
  -- `Url::parse` and `host_str`: `none` if the URL does not parse
  pub url_host : Bytes → Option (Option Bytes)
  pub url_port : Bytes → Option ℕ
  pub is_ip : Bytes → Bool
  -- `Client::new`, and a client that has the addresses of a host fixed, if it can be built
  pub plain : Client
  pub pinned : (host : Bytes) → List (Ipv4Addr × ℕ) → Option Client
  -- the first and second request that a download sends, with `If-None-Match` if there is an etag
  pub get : (attempt : ℕ) → Client → (url : Bytes) → (etag : Option Bytes) → Reply Response

module _ (web : Web) where
  module _ (resolve : Bytes → Result (List Ipv4Addr)) where
    client_for_host : (url host : Bytes) → web.Client
    client_for_host url host = if web.is_ip host then web.plain else elim (resolve host) [
      | ok [] ↦ web.plain
      | ok (ip ∷ ips) ↦
          let port = elim (web.url_port url) as (λ _. ℕ) [ some p ↦ p | none ↦ 443 ] in
          elim (web.pinned host (map (λ a. (a, port)) (ip ∷ ips))) [
            | some client ↦ client
            | none ↦ web.plain
          ]
      | err e ↦ web.plain
      | fault f ↦ web.plain
    ]

    unfoldable pub client_for_url : Bytes → web.Client
    unfolding client_for_host
    client_for_url url = elim (web.url_host url) [
      | some (some host) ↦ client_for_host url host
      | some none ↦ web.plain
      | none ↦ web.plain
    ]

  unfoldable pub client_key : (Bytes → Bytes) → Bytes → Bytes
  client_key to_lowercase url = elim (web.url_host url) [
    | some (some host) ↦ to_lowercase host
    | some none ↦ url
    | none ↦ url
  ]

  -- `read_cached().map(StaleFallback).unwrap_or_else(|| Failed(..))`
  stale_or_failed : Option Bytes → Bytes → DownloadResult
  stale_or_failed (some body) message = stale_fallback body
  stale_or_failed none message = failed message

  -- The body of a response that has one.
  fresh_body : Response → DownloadResult
  fresh_body resp = elim resp.text [
    | got body ↦ fresh body resp.etag
    | broken e ↦ failed (codes "read body: " ++ e)
  ]

  -- The request without an etag, when the body that a 304 speaks of is missing.
  refetch : web.Client → Bytes → DownloadResult
  unfolding fresh_body
  refetch client url = elim (web.get 1 client url none) [
    | got resp ↦ fresh_body resp
    | broken e ↦ failed (codes "refetch failed: " ++ e)
  ]

  respond : web.Client → Bytes → Option Bytes → Response → DownloadResult
  unfolding refetch fresh_body stale_or_failed
  respond client url cached resp =
      if resp.status == 304
      then elim cached [ some body ↦ not_modified | none ↦ refetch client url ]
      else if resp.status == 200
      then fresh_body resp
      else stale_or_failed cached (codes "HTTP " ++ resp.status_text)

  -- `cached` is what the file of the URL holds.
  unfoldable pub download_one :
      web.Client → (url : Bytes) → (etag cached : Option Bytes) → DownloadResult
  unfolding respond stale_or_failed
  download_one client url etag cached = elim (web.get 0 client url etag) [
    | got resp ↦ respond client url cached resp
    | broken e ↦ stale_or_failed cached (codes "request failed: " ++ e)
  ]

  module _ (resolve : Bytes → Result (List Ipv4Addr)) (to_lowercase : Bytes → Bytes) where
    -- The client of a host is made for the first job of that host.
    client_of : List FetchJob → Bytes → web.Client
    unfolding client_for_url client_key
    client_of [] url = web.plain
    client_of (j ∷ js) url =
        let rest = client_of js url in
        if bytes_eq (client_key to_lowercase j.url) (client_key to_lowercase url)
        then client_for_url resolve j.url
        else rest

    -- The results of the jobs; `joined` is the order in which they arrive, without those whose task
    -- has failed.
    unfoldable pub download_jobs :
        (disk : Disk)
        → (joined : List (Bytes × DownloadResult) → List (Bytes × DownloadResult)) → List FetchJob
        → disk.Dir
        → List (Bytes × DownloadResult)
    unfolding client_of download_one
    download_jobs disk joined jobs dir = joined (
        map
          (λ j. (
            j.url,
            download_one (client_of jobs j.url) j.url j.etag
                (disk.read (url_to_filename j.url) dir),
          ))
          jobs)
