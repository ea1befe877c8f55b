-- ===== src/Api/Memory/Released.antt =====
-- What a request and the clean-up of its response release, and what they do not.
use ocgeo_fdw.Prelude.{
  ℕ, ◌+◌, ◌≡◌, refl, ap, ◌∙◌, Option, Option-cases, inl, inr, none, some, String, List, [], ◌∷◌,
  ◌++◌, arith, Bool, true, false, if◌then◌else◌,
}
use ocgeo_fdw.Prelude.Ctext.{◌<>◌}
use ocgeo_fdw.Prelude.Exec.{ok}
use ocgeo_fdw.Foreign.{Floating, Cjson, Sds, Curl}
use ocgeo_fdw.Api.Types.{GeoResult, Results, chain, uninitialised, Response, zero_response, Params}
use ocgeo_fdw.Api.Reply.{response_cleanup}
use ocgeo_fdw.Api.Request.{Api, do_request, forward, reverse}
use ocgeo_fdw.Api.Memory.{
  Block, curl_handle, escaped_query, url, body, agent, query, document, results, bounds, Event,
  acquires, releases, settle, uri_events, old_url_events, bounds_events, results_events,
  cleanup_events, do_request_events, forward_events, reverse_events,
}
use ocgeo_fdw.Api.Memory.Acquired.{lost, transfer_events-Closes}
use ocgeo_fdw.Api.Memory.Settled.{
  settle-++, settle-acquires, settle-releases, one, url_held, all_bounds_held, results_held,
  response_held,
}

module _ {F : Floating} (J : Cjson F) where
  -- What goes before the transfer: the handle that was made for it is used up.
  before_transfer :
      (b : Block) (old : Option String) (rest : List Event) (k : ℕ)
      → settle b
          (uri_events
            ++ old_url_events old
            ++ (acquires body ∷ acquires agent ∷ releases curl_handle ∷ releases agent ∷ rest))
          (one curl_handle b + (url_held old b + k))
        ≡ settle b rest (one body b + (one url b + k))
  before_transfer b none rest k =
      settle-acquires escaped_query b _ _
      ∙ settle-acquires url b _ _
      ∙ settle-releases escaped_query b _ (one url b + (one curl_handle b + k)) (omega arith)
      ∙ settle-acquires body b _ _
      ∙ settle-acquires agent b _ _
      ∙ settle-releases curl_handle b _ (one agent b + (one body b + (one url b + k))) (omega arith)
      ∙ settle-releases agent b rest (one body b + (one url b + k)) (omega arith)
  before_transfer b (some _) rest k =
      settle-acquires escaped_query b _ _
      ∙ settle-acquires url b _ _
      ∙ settle-releases escaped_query b _ (one url b + (one curl_handle b + (one url b + k)))
          (omega arith)
      ∙ settle-releases url b _ (one curl_handle b + (one url b + k)) (omega arith)
      ∙ settle-acquires body b _ _
      ∙ settle-acquires agent b _ _
      ∙ settle-releases curl_handle b _ (one agent b + (one body b + (one url b + k))) (omega arith)
      ∙ settle-releases agent b rest (one body b + (one url b + k)) (omega arith)

  module _ (S : Sds) (C : Curl) where
    do_request-settles :
        (is_fwd : Bool) (q key server : String) (params : Option (Params F)) (before : Response J)
        {answered : Bool} {after : Response J} (b : Block) (n : ℕ)
        → do_request J S C is_fwd q key server params before ≡ ok (answered, after)
        → settle b
            (do_request_events J S C is_fwd q key server params before)
            (one curl_handle b + (response_held before b + n))
          ≡ some (response_held after b + (lost J answered before.results b + n))
    unfolding do_request do_request_events
    do_request-settles is_fwd q key server params before {answered = answered} {after = after} b n
          h =
        let (closes, same) = transfer_events-Closes J S C _ _ h in
        ap (settle b _) (omega arith)
        ∙ before_transfer b before.url _ (results_held before.results b + n)
        ∙ ap (settle b _) (omega arith)
        ∙ closes b (one url b + n)
        ∙ ap some (omega (arith, ap (λ u. url_held u b) same))

    -- A forward request that returns, answered or not, has given back all that it acquired, but
    -- for what the response then holds; nothing is released that is not held. If it was answered,
    -- the parsed document is not given back, and neither are the results that the response had
    -- before.
    pub forward-settles :
        (api : Api S) (q : String) (params : Option (Params F)) (before : Response J)
        {answered : Bool} {after : Response J} (b : Block) (n : ℕ)
        → forward J S C api q params before ≡ ok (answered, after)
        → settle b (forward_events J S C api q params before) (response_held before b + n)
          ≡ some (response_held after b + (lost J answered before.results b + n))
    unfolding forward forward_events
    forward-settles api q params before b n h =
        settle-acquires curl_handle b _ _ ∙ do_request-settles true q _ _ params before b n h

    reverse-settles :
        (api : Api S) (lat lng : F.Double) (params : Option (Params F)) (before : Response J)
        {answered : Bool} {after : Response J} (b : Block) (n : ℕ)
        → reverse J S C api lat lng params before ≡ ok (answered, after)
        → settle b (reverse_events J S C api lat lng params before) (response_held before b + n)
          ≡ some (response_held after b + (lost J answered before.results b + n))
    unfolding reverse reverse_events settle
    reverse-settles api lat lng params before {answered = answered} {after = after} b n h =
        let q = S.text_of (S.cat_printf S.empty (F.print_8 lat <> "," <> F.print_8 lng)) in
        let es =
          do_request_events J S C false q (S.text_of api.api_key) (S.text_of api.server) params
            before in
        settle-++ b (acquires curl_handle ∷ acquires query ∷ es) (releases query ∷ [])
          (response_held before b + n)
          (settle-acquires curl_handle b (acquires query ∷ es) (response_held before b + n)
            ∙ settle-acquires query b es (one curl_handle b + (response_held before b + n))
            ∙ ap (settle b es) (omega arith)
            ∙ do_request-settles false q _ _ params before b (one query b + n) h)
        ∙ settle-releases query b []
            (response_held after b + (lost J answered before.results b + n)) (omega arith)

  bounds_events-settle :
      (rs : List (GeoResult J)) (b : Block) (n : ℕ)
      → settle b (bounds_events J rs) (all_bounds_held rs b + n) ≡ some n
  unfolding settle bounds_events
  bounds_events-settle [] b n = ap some (omega arith)
  bounds_events-settle (r ∷ rs) b n = elim (Option-cases r.bounds) [
    | inl no_bounds ↦
        rw (no_bounds, bounds_events)
          (ap (settle b (bounds_events J rs)) (omega arith) ∙ bounds_events-settle rs b n)
    | inr (bs, bounded) ↦
        rw (bounded, bounds_events)
          (settle-releases bounds b _ (all_bounds_held rs b + n) (omega arith)
            ∙ bounds_events-settle rs b n)
  ]

  results_events-settle :
      (x : Results J) (r : Response J) {r' : Response J} (b : Block) (n : ℕ)
      → r.results ≡ x
      → response_cleanup J r ≡ ok r'
      → settle b (results_events J x) (results_held x b + n) ≡ some n
  unfolding settle response_cleanup
  results_events-settle uninitialised r b n e h = let h' = rw e at h in cc
  results_events-settle (chain []) r b n e h = ap some (omega arith)
  results_events-settle (chain (x ∷ xs)) r b n e h =
      ap (settle b _) (omega arith)
      ∙ settle-++ b (bounds_events J (x ∷ xs)) _ _
          (bounds_events-settle (x ∷ xs) b (one results b + n))
      ∙ settle-releases results b [] n refl

  old_url_events-settle :
      (old : Option String) (b : Block) (es : List Event) (n : ℕ)
      → settle b (old_url_events old ++ es) (url_held old b + n) ≡ settle b es n
  old_url_events-settle none b es n = ap (settle b es) (omega arith)
  old_url_events-settle (some _) b es n = settle-releases url b es n refl

  -- The clean-up of a response gives back the URL, the bounds and the results that it holds, each
  -- once.
  cleanup_events-settle :
      (r : Response J) {r' : Response J} (b : Block) (n : ℕ)
      → response_cleanup J r ≡ ok r'
      → settle b (cleanup_events J r) (response_held r b + n) ≡ some n
  cleanup_events-settle r b n h =
      ap (settle b _) (omega arith)
      ∙ old_url_events-settle r.url b _ (results_held r.results b + n)
      ∙ results_events-settle r.results r b n refl h

  -- A reverse request with a fresh response and the clean-up of that give back all that they
  -- acquired, each once, but for the parsed document of a request that was answered: that is lost.
  pub reverse_then_cleanup :
      (S : Sds) (C : Curl) (api : Api S) (lat lng : F.Double) (params : Option (Params F))
      {answered : Bool} {r r' : Response J} (b : Block) (n : ℕ)
      → reverse J S C api lat lng params (zero_response J) ≡ ok (answered, r)
      → response_cleanup J r ≡ ok r'
      → settle b (reverse_events J S C api lat lng params (zero_response J) ++ cleanup_events J r) n
        ≡ some (if answered then one document b + n else n)
  reverse_then_cleanup S C api lat lng params {answered = true} {r = r} b n h h' =
      settle-++ b (reverse_events J S C api lat lng params (zero_response J)) _ n (
        ap (settle b _) (omega arith)
        ∙ reverse-settles S C api lat lng params (zero_response J) b n h)
      ∙ cleanup_events-settle r b _ h'
      ∙ ap some (omega arith)
  reverse_then_cleanup S C api lat lng params {answered = false} {r = r} b n h h' =
      settle-++ b (reverse_events J S C api lat lng params (zero_response J)) _ n (
        ap (settle b _) (omega arith)
        ∙ reverse-settles S C api lat lng params (zero_response J) b n h)
      ∙ cleanup_events-settle r b _ h'
      ∙ ap some (omega arith)
