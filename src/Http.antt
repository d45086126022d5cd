-- ===== src/Http.antt =====
-- frontend/src/shared/api/httpClient.ts: the wrapper of `fetch` that every gateway calls.
mod Tests
use openscale.Base.{
  ℕ, Text, codes, List, [], ◌∷◌, ◌++◌, Option, none, some, Bool, true, false, if◌then◌else◌, drop,
  is_some,
}
use openscale.Search.Matching.{starts_with}

pub data Method : Type 0 where
  get post put delete : Method

abbrev pub method_text : Method → Text
method_text get = codes "GET"
method_text post = codes "POST"
method_text put = codes "PUT"
method_text delete = codes "DELETE"

-- The arguments of `fetch`; `body` is the value that `JSON.stringify` writes.
pub record Request (Json : Type 0) : Type 0 where
  pub method : Method
  pub url : Text
  pub json_content_type : Bool
  pub body : Option Json

-- What `fetch` gives: a rejection, or a response; `json` is none if its body is no JSON.
pub data Fetched (Json : Type 0) : Type 0 where
  network_failure : Fetched Json
  response : Bool → Text → Text → Option Json → Fetched Json

pub data ApiResult (A : Type 0) : Type 0 where
  resolved : A → ApiResult A
  failed : Text → ApiResult A
  network_error : ApiResult A
  no_json : ApiResult A

-- `throw new Error(…)` of a response that is not ok.
abbrev pub failure : Method → Text → Text → Text → Text
failure method path status status_text =
    method_text method
    ++ (codes " " ++ (path ++ (codes " failed: " ++ (status ++ (codes " " ++ status_text)))))

module _ {Json : Type 0} where
  abbrev pub parsed : Option Json → ApiResult Json
  parsed none = no_json
  parsed (some value) = resolved value

  abbrev pub settle_json : Method → Text → Fetched Json → ApiResult Json
  settle_json method path network_failure = network_error
  settle_json method path (response ok status status_text json) =
      if ok then parsed json else failed (failure method path status status_text)

  abbrev pub settle_empty : Text → Fetched Json → ApiResult Unit
  settle_empty path network_failure = network_error
  settle_empty path (response ok status status_text json) =
      if ok then resolved tt else failed (failure delete path status status_text)

  module _ (base_url : Text) (fetch : Request Json → Fetched Json) where
    unfoldable pub api_get : Text → ApiResult Json
    api_get path = settle_json get path (
        fetch
          (record { method = get; url = base_url ++ path; json_content_type = false; body = none }))

    unfoldable pub api_post : Text → Option Json → ApiResult Json
    api_post path body = settle_json post path (
        fetch (record {
          method = post;
          url = base_url ++ path;
          json_content_type = is_some body;
          body = body;
        }))

    unfoldable pub api_put : Text → Json → ApiResult Json
    api_put path body = settle_json put path (
        fetch (record {
          method = put;
          url = base_url ++ path;
          json_content_type = true;
          body = some body;
        }))

    unfoldable pub api_delete : Text → ApiResult Unit
    api_delete path = settle_empty path (
        fetch (record {
          method = delete;
          url = base_url ++ path;
          json_content_type = false;
          body = none;
        }))

-- `API_BASE_URL.replace(/^http/, 'ws')`
unfoldable pub ws_url : Text → Text → Text
ws_url base_url path =
    (if starts_with (codes "http") base_url then codes "ws" ++ drop 4 base_url else base_url)
    ++ path
