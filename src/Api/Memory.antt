-- ===== src/Api/Memory.antt =====
-- The memory of the client (ocgeo_api.c): what each of its functions acquires from malloc, calloc,
-- sds, curl and cJSON, and what it releases, in the order in which it does.
pub mod Settled
pub mod Acquired
pub mod Released
mod Tests
use ocgeo_fdw.Prelude.{
  ℕ, zero, suc, ◌+◌, Bool, true, false, ◌==◌, String, Option, none, some, List, [], ◌∷◌, ◌++◌,
  if◌then◌else◌,
}
use ocgeo_fdw.Prelude.Int.{ℤ, pos, ltb_ℤ}
use ocgeo_fdw.Prelude.Ctext.{◌<>◌}
use ocgeo_fdw.Foreign.{Floating, Cjson, Sds, Curl}
use ocgeo_fdw.Api.Types.{GeoResult, Results, chain, uninitialised, Response, Params}
use ocgeo_fdw.Api.Url.{server_request_uri_impl}
use ocgeo_fdw.Api.Reply.{json_int_value}
use ocgeo_fdw.Api.Request.{Api, write_callback, user_agent, params_or_default}

-- The kinds of memory, each named for the variable or field that holds it.
pub data Block : Type 0 where
  curl_handle escaped_query url body agent query document results bounds client client_key
        client_server :
      Block

abbrev pub tag : Block → ℕ
tag curl_handle = 0
tag escaped_query = 1
tag url = 2
tag body = 3
tag agent = 4
tag query = 5
tag document = 6
tag results = 7
tag bounds = 8
tag client = 9
tag client_key = 10
tag client_server = 11

pub data Event : Type 0 where
  acquires releases : Block → Event

-- What is held of a kind after an event; nothing that is not held can be released.
abbrev pub after_event : Block → Event → ℕ → Option ℕ
after_event b (acquires c) n = if tag b == tag c then some (n + 1) else some n
after_event b (releases c) zero = if tag b == tag c then none else some 0
after_event b (releases c) (suc n) = if tag b == tag c then some n else some (suc n)

unfoldable pub settle : Block → List Event → ℕ → Option ℕ
settle b [] n = some n
settle b (e ∷ es) n = elim (after_event b e n) [ none ↦ none | some m ↦ settle b es m ]

-- ocgeo_init.
abbrev pub init_events : List Event
init_events = acquires client ∷ acquires client_key ∷ acquires client_server ∷ []

-- ocgeo_close, at a pointer that is not NULL.
abbrev pub close_events : List Event
close_events = releases client_server ∷ releases client_key ∷ releases client ∷ []

-- ocgeo_server_request_uri_impl: the escaped query is given back, the URL is returned.
abbrev pub uri_events : List Event
uri_events = acquires escaped_query ∷ acquires url ∷ releases escaped_query ∷ []

-- The URL of the request before, if the response has one.
abbrev pub old_url_events : Option String → List Event
old_url_events none = []
old_url_events (some _) = releases url ∷ []

module _ {F : Floating} (J : Cjson F) where
  -- The loop over the results: a structure for the bounds of those that have any.
  unfoldable pub bounds_acquired : List J.Node → List Event
  bounds_acquired [] = []
  bounds_acquired (result_js ∷ rest) = elim (J.get_object_item_case_sensitive result_js "bounds") [
    | none ↦ bounds_acquired rest
    | some _ ↦ acquires bounds ∷ bounds_acquired rest
  ]

  abbrev pub array_events : Option J.Node → List Event
  array_events none = acquires results ∷ []
  array_events (some obj) = acquires results ∷ bounds_acquired (J.elements obj)

  -- parse_response_json.
  abbrev pub parse_events : J.Node → List Event
  parse_events json = elim (J.get_object_item json "total_results") [
    | none ↦ []
    | some total_js ↦
        if ltb_ℤ (pos 0) (json_int_value J total_js)
        then array_events (J.get_object_item_case_sensitive json "results")
        else []
  ]

  -- ocgeo_response_cleanup, at a response whose results were written: the loop over them, and the
  -- array, if there is one. The document that they point into is not touched.
  unfoldable pub bounds_events : List (GeoResult J) → List Event
  bounds_events [] = []
  bounds_events (r ∷ rs) = elim r.bounds [
    | none ↦ bounds_events rs
    | some _ ↦ releases bounds ∷ bounds_events rs
  ]

  abbrev pub results_events : Results J → List Event
  results_events uninitialised = []
  results_events (chain []) = []
  results_events (chain (r ∷ rs)) = bounds_events (r ∷ rs) ++ releases results ∷ []

  abbrev pub cleanup_events : Response J → List Event
  cleanup_events r = old_url_events r.url ++ results_events r.results

  module _ (S : Sds) (C : Curl) where
    -- do_request, from the end of the transfer on.
    abbrev pub body_events : S.Buffer → List Event
    body_events received = elim (J.parse (S.text_of received)) [
      | none ↦ releases body ∷ []
      | some json ↦ acquires document ∷ releases body ∷ parse_events json
    ]

    abbrev pub transfer_events : List String × Bool → List Event
    transfer_events (chunks, false) = releases body ∷ []
    transfer_events (chunks, true) = body_events (write_callback S S.empty chunks)

    unfoldable pub do_request_events :
        Bool → String → String → String → Option (Params F) → Response J → List Event
    do_request_events is_fwd q key server params response =
        let uri = S.text_of (
          server_request_uri_impl S C.easy_escape key server q is_fwd
            (params_or_default J S C params)) in
        uri_events
        ++ old_url_events response.url
        ++ (acquires body
            ∷ acquires agent
            ∷ releases curl_handle
            ∷ releases agent
            ∷ transfer_events (C.perform uri (S.text_of (user_agent J S C))))

    -- ocgeo_forward and ocgeo_reverse.
    unfoldable pub forward_events : Api S → String → Option (Params F) → Response J → List Event
    forward_events api q params response =
        acquires curl_handle
        ∷ do_request_events true q (S.text_of api.api_key) (S.text_of api.server) params response

    unfoldable pub reverse_events :
        Api S → F.Double → F.Double → Option (Params F) → Response J → List Event
    reverse_events api lat lng params response =
        let q = S.text_of (S.cat_printf S.empty (F.print_8 lat <> "," <> F.print_8 lng)) in
        (acquires curl_handle
          ∷ acquires query
          ∷ do_request_events false q (S.text_of api.api_key) (S.text_of api.server) params
              response)
        ++ releases query ∷ []
