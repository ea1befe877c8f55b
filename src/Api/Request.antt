-- ===== src/Api/Request.antt =====
-- A request to the service (ocgeo_init, write_callback, do_request, ocgeo_forward and
-- ocgeo_reverse in ocgeo_api.c).
pub mod Outcome
pub mod Total
use ocgeo_fdw.Prelude.{Bool, true, false, String, Option, none, some, List, [], ◌∷◌}
use ocgeo_fdw.Prelude.Exec.{Exec, ok, ◌>>=◌}
use ocgeo_fdw.Prelude.Ctext.{◌<>◌}
use ocgeo_fdw.Foreign.{Floating, Cjson, Sds, Curl}
use ocgeo_fdw.Api.Types.{Response, Params, default_params}
use ocgeo_fdw.Api.Url.{server_request_uri_impl}
use ocgeo_fdw.Api.Reply.{parse_response_json}

pub record Api (S : Sds) : Type 0 where
  pub api_key : S.Buffer
  pub server : S.Buffer

-- A pointer that may be NULL is handed to sdsnew as it is.
unfoldable pub init : (S : Sds) → Option String → Option String → Api S
init S api_key server = record { api_key = S.new api_key; server = S.new server }

-- write_callback, called with each chunk of the body. The size of an element is 1.
unfoldable pub write_callback : (S : Sds) → S.Buffer → List String → S.Buffer
write_callback S buffer [] = buffer
write_callback S buffer (chunk ∷ chunks) = write_callback S (S.cat_len buffer chunk) chunks

abbrev pub ocgeo_version : String
ocgeo_version = "0.3.1"

module _ {F : Floating} (J : Cjson F) (S : Sds) (C : Curl) where
  abbrev pub user_agent : S.Buffer
  user_agent = S.cat_printf S.empty ("ocgeo_fdw/" <> ocgeo_version <> " (" <> C.version <> ")")

  -- What is done with the body of a reply.
  abbrev pub read_body : S.Buffer → Response J → Exec (Bool × Response J)
  read_body body response = elim (J.parse (S.text_of body)) [
    | none ↦ ok (false, response)
    | some json ↦ parse_response_json J json response >>= λ r. ok (true, r)
  ]

  -- The end of a transfer.
  abbrev pub finish_transfer : List String × Bool → Response J → Exec (Bool × Response J)
  finish_transfer (chunks, true) response = read_body (write_callback S S.empty chunks) response
  finish_transfer (chunks, false) response = ok (false, response)

  abbrev pub params_or_default : Option (Params F) → Params F
  params_or_default none = default_params F
  params_or_default (some params) = params

  -- At a response that is not NULL.
  unfoldable pub do_request :
      Bool → String → String → String → Option (Params F) → Response J → Exec (Bool × Response J)
  do_request is_fwd q api_key server params response =
      let url = S.text_of (
        server_request_uri_impl S C.easy_escape api_key server q is_fwd
          (params_or_default params)) in
      finish_transfer (C.perform url (S.text_of user_agent)) (record response { url = some url })

  unfoldable pub forward :
      Api S → String → Option (Params F) → Response J → Exec (Bool × Response J)
  forward api q params response =
      do_request true q (S.text_of api.api_key) (S.text_of api.server) params response

  unfoldable pub reverse :
      Api S → F.Double → F.Double → Option (Params F) → Response J → Exec (Bool × Response J)
  reverse api lat lng params response =
      let q = S.text_of (S.cat_printf S.empty (F.print_8 lat <> "," <> F.print_8 lng)) in
      do_request false q (S.text_of api.api_key) (S.text_of api.server) params response
