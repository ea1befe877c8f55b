-- ===== src/Api/Request/Total.antt =====
-- Whatever the service does, but for a document of another shape than its own, a request returns.
use package.text.Mathlib.TextLemmas.{nil-append}
use ocgeo_fdw.Prelude.{◌≡◌, refl, ap, ◌∙◌, Bool, true, false, String, Option, none, some, List}
use ocgeo_fdw.Prelude.Exec.{ok}
use ocgeo_fdw.Prelude.Ctext.{◌<>◌}
use ocgeo_fdw.Foreign.{Floating, Cjson, Sds, AppendsText, Curl}
use ocgeo_fdw.Api.Types.{Response, Params}
use ocgeo_fdw.Api.Url.{server_request_uri_impl}
use ocgeo_fdw.Api.Reply.Shape.{HasReply, response_of}
use ocgeo_fdw.Api.Reply.Total.{parse_response_json-response_of}
use ocgeo_fdw.Api.Request.{
  write_callback, user_agent, read_body, finish_transfer, params_or_default, do_request,
}
use ocgeo_fdw.Api.Request.Outcome.{concat, text_of-write_callback}

module _ {F : Floating} (J : Cjson F) where
  -- How a transfer may end: broken, with a body that is no document, or with a document of the
  -- shape that the service sends.
  pub data HasAnswer : List String × Bool → Type 0 where
    broken : (chunks : List String) → HasAnswer (chunks, false)
    unreadable : (chunks : List String) → J.parse (concat chunks) ≡ none → HasAnswer (chunks, true)
    replied :
        (chunks : List String) (json : J.Node)
        → J.parse (concat chunks) ≡ some json
        → HasReply J json
        → HasAnswer (chunks, true)

  -- What a request then returns: whether it was answered, and the response.
  abbrev pub answer_of : {t : List String × Bool} → HasAnswer t → Response J → Bool × Response J
  answer_of (broken chunks) r = (false, r)
  answer_of (unreadable chunks e) r = (false, r)
  answer_of (replied chunks json e h) r = (true, response_of J h r.url)

-- The URL that a request is sent to.
abbrev pub requested_url :
    {F : Floating} (J : Cjson F) (S : Sds) (C : Curl)
    → Bool
    → String
    → String
    → String
    → Option (Params F)
    → String
requested_url J S C is_fwd q api_key server params = S.text_of (
    server_request_uri_impl S C.easy_escape api_key server q is_fwd
      (params_or_default J S C params))

module _ {F : Floating} (J : Cjson F) {S : Sds} (laws : AppendsText S) (C : Curl) where
  body_lem : (chunks : List String) → S.text_of (write_callback S S.empty chunks) ≡ concat chunks
  body_lem chunks =
      text_of-write_callback laws S.empty chunks
      ∙ ap (λ t. t <> concat chunks) laws.text_empty
      ∙ nil-append (concat chunks)

  finish_transfer-answer_of :
      (t : List String × Bool) (h : HasAnswer J t) (response : Response J)
      → finish_transfer J S C t response ≡ ok (answer_of J h response)
  finish_transfer-answer_of t (broken chunks) response = refl
  finish_transfer-answer_of t (unreadable chunks e) response =
      rw (body_lem chunks, read_body, e) refl
  finish_transfer-answer_of t (replied chunks json e h) response =
      rw (body_lem chunks, read_body, e, parse_response_json-response_of J json h response) refl

  -- A request returns if the transfer breaks, if its body is no document, and if it is a document
  -- of the shape that the service sends. In the first two cases only the URL of the response is
  -- new; in the third the response is the one that the document describes. Nothing is said of a
  -- document of another shape.
  pub do_request-answer_of :
      (is_fwd : Bool) (q api_key server : String) (params : Option (Params F))
      (response : Response J)
      (h : HasAnswer J (
        C.perform
          (requested_url J S C is_fwd q api_key server params)
          (S.text_of (user_agent J S C))))
      → do_request J S C is_fwd q api_key server params response
        ≡ ok (
            answer_of J h
              (record response { url = some (requested_url J S C is_fwd q api_key server params) }))
  unfolding do_request
  do_request-answer_of is_fwd q api_key server params response h = finish_transfer-answer_of _ h _
