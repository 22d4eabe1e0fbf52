-- ===== src/Writer.antt =====
-- internal/writer/writer.go: one remote-write endpoint. What it calls of other packages is the
-- parameter `Transport`; a request is the record of what the code sets on it.
pub mod Prepare
pub mod Post
pub mod Requests
pub mod Tests
use kubemonitor.Common.{
  ℕ, Bool, Option, none, some, List, [], ◌∷◌, leb, ◌==◌, if◌then◌else◌, length, Text, codes,
  text_eq,
}
use kubemonitor.Common.Int.{ℤ}
use kubemonitor.Sample.{TimeSeries}
use kubemonitor.Http.{Header, header_add, header_set, basic_auth}

pub record WriterOption : Type 0 where
  pub url : Text
  pub basic_auth_user : Text
  pub basic_auth_pass : Text
  pub headers : List Text
  pub timeout : ℤ
  pub dial_timeout : ℤ
  pub max_idle_conns_per_host : ℤ

-- `host` is `none` where the request goes to the host of its URL.
pub record Request : Type 0 where
  pub url : Text
  pub body : Text
  pub header : Header
  pub host : Option Text

-- Other packages: `api.NewClient` over a transport with the option's timeouts, `proto.Marshal` of
-- the write request, `snappy.Encode`, the URL check of `http.NewRequest`, and `Client.Do`, which
-- gives a status code. `none` is an error. `C` stands for `api.Client`.
pub record Transport (C F : Type 0) : Type 0 where
  pub new_client : WriterOption → Option C
  pub marshal : List (TimeSeries F) → Option Text
  pub encode : Text → Text
  pub url_is_valid : Text → Bool
  pub send : C → Request → Option ℕ

pub record Writer (C : Type 0) : Type 0 where
  pub opts : WriterOption
  pub client : C

-- How a call of the Go code ends: it returns nil, it returns an error, or it panics.
pub data Outcome : Type 0 where
  ok failed panicked : Outcome

pub data Prepared : Type 0 where
  prepared : Request → Prepared
  refused crashed : Prepared

-- The headers that every request carries.
abbrev pub fixed_headers : Header
fixed_headers = header_set (codes "X-Prometheus-Remote-Write-Version") (codes "0.1.0") (
    header_set (codes "User-Agent") (codes "categraf") (
      header_set (codes "Content-Type") (codes "application/x-protobuf")
        (header_add (codes "Content-Encoding") (codes "snappy") [])))

-- The loop over `Opts.Headers`, two at a time; `Headers[i+1]` panics behind an odd last one.
unfoldable pub add_headers : List Text → Request → Option Request
add_headers [] r = some r
add_headers (k ∷ []) r = none
add_headers (k ∷ v ∷ rest) r = add_headers rest (record r {
  header = header_add k v r.header;
  host = if text_eq k (codes "Host") then some v else r.host;
})

unfoldable pub authorize : WriterOption → Request → Request
authorize opts r = if length opts.basic_auth_user == 0 then r else record r {
  header =
      header_set (codes "Authorization") (basic_auth opts.basic_auth_user opts.basic_auth_pass)
        r.header;
}

module _ {C F : Type 0} (net : Transport C F) where
  unfoldable pub new_writer : WriterOption → Option (Writer C)
  new_writer opt = elim (net.new_client opt) [
    | none ↦ none
    | some client ↦ some (record { opts = opt; client = client })
  ]

  -- The part of `post` in front of `Client.Do`.
  unfoldable pub prepare : WriterOption → Text → Prepared
  prepare opts req =
      if net.url_is_valid opts.url
      then elim (add_headers opts.headers
          (record { url = opts.url; body = req; header = fixed_headers; host = none })) [
            | none ↦ crashed
            | some r ↦ prepared (authorize opts r)
          ]
      else refused

  unfoldable pub post : Writer C → Text → Outcome
  post w req = elim (prepare w.opts req) [
    | crashed ↦ panicked
    | refused ↦ failed
    | prepared r ↦ elim (net.send w.client r) [
      | none ↦ failed
      | some status ↦ if leb 400 status then failed else ok
    ]
  ]

  -- `Write` logs an error of `post` and returns nil.
  unfoldable pub write : Writer C → List (TimeSeries F) → Outcome
  write w [] = ok
  write w (item ∷ items) = elim (net.marshal (item ∷ items)) [
    | none ↦ failed
    | some bytes ↦ elim (post w (net.encode bytes)) [ panicked ↦ panicked | _ ↦ ok ]
  ]
