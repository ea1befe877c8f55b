-- ===== src/Api/Request/Outcome.antt =====
-- What a request returns.
use text.Mathlib.TextLemmas.{append-nil, append_assoc, nil-append}
use ocgeo_fdw.Prelude.{
  ◌≡◌, refl, sym, ap, ◌∙◌, inl, inr, Option-cases, Bool, true, false, String, Option, some, List,
  [], ◌∷◌,
}
use ocgeo_fdw.Prelude.Exec.{ok, >>=-eq-ok}
use ocgeo_fdw.Prelude.Ctext.{◌<>◌}
use ocgeo_fdw.Foreign.{Floating, Cjson, Sds, AppendsText, Curl}
use ocgeo_fdw.Api.Types.{Response, Params}
use ocgeo_fdw.Api.Url.{server_request_uri_impl}
use ocgeo_fdw.Api.Reply.{parse_response_json}
use ocgeo_fdw.Api.Request.{
  write_callback, user_agent, read_body, finish_transfer, params_or_default, do_request,
}

abbrev pub concat : List String → String
concat [] = ""
concat (s ∷ ss) = s <> concat ss

-- The body is the chunks in the order in which they came.
pub text_of-write_callback :
    {S : Sds}
    → AppendsText S
    → (b : S.Buffer) (chunks : List String)
    → S.text_of (write_callback S b chunks) ≡ S.text_of b <> concat chunks
unfolding write_callback
text_of-write_callback laws b [] = sym (append-nil _)
text_of-write_callback {S} laws b (c ∷ cs) =
    text_of-write_callback laws (S.cat_len b c) cs
    ∙ ap (λ t. t <> concat cs) (laws.text_cat_len b c)
    ∙ append_assoc (S.text_of b) c (concat cs)

module _ {F : Floating} (J : Cjson F) {S : Sds} (laws : AppendsText S) (C : Curl) where
  -- The end of a request: it failed, and the response is as it was; or the body is a document,
  -- and the response was read from it.
  pub data Ended (response : Response J) (transfer : List String × Bool) (answered : Bool)
      (after : Response J) : Type 0 where
    failed : answered ≡ false → after ≡ response → Ended response transfer answered after
    answered_by :
        (json : J.Node)
        → answered ≡ true
        → transfer.1 ≡ true
        → J.parse (concat transfer.0) ≡ some json
        → parse_response_json J json response ≡ ok after
        → Ended response transfer answered after

  read_body-Ended :
      (body : S.Buffer) (response : Response J) (chunks : List String)
      → S.text_of body ≡ concat chunks
      → {answered : Bool} {after : Response J}
      → read_body J S C body response ≡ ok (answered, after)
      → Ended response (chunks, true) answered after
  read_body-Ended body response chunks e h = elim (Option-cases (J.parse (S.text_of body))) [
    | inl no_document ↦ let h' = rw (no_document, read_body) at h in failed (cc) (cc)
    | inr (json, parsed) ↦
        let (r, read, same) =
          >>=-eq-ok (parse_response_json J json response) _ (rw (parsed, read_body) at h) in
        answered_by json (cc) refl (rw (← e) parsed) (cc)
  ]

  transfer_end :
      (t : List String × Bool) (response : Response J) {answered : Bool} {after : Response J}
      → finish_transfer J S C t response ≡ ok (answered, after)
      → Ended response t answered after
  transfer_end (chunks, true) response h =
      read_body-Ended (write_callback S S.empty chunks) response chunks
        (text_of-write_callback laws S.empty chunks
          ∙ ap (λ t. t <> concat chunks) laws.text_empty
          ∙ nil-append (concat chunks))
        h
  transfer_end (chunks, false) response h = failed (cc) (cc)

  -- A request, forward or reverse, goes to the URL of its parameters, the default ones for NULL.
  -- It returns false and only the URL is new in the response; or it returns true, and then the
  -- transfer succeeded, its chunks make up a document, and the response was read from that.
  pub do_request-Ended :
      (is_fwd : Bool) (q api_key server : String) (params : Option (Params F))
      (response : Response J) {answered : Bool} {after : Response J}
      → do_request J S C is_fwd q api_key server params response ≡ ok (answered, after)
      → let url = S.text_of (
          server_request_uri_impl S C.easy_escape api_key server q is_fwd
            (params_or_default J S C params)) in
        Ended
          (record response { url = some url })
          (C.perform url (S.text_of (user_agent J S C)))
          answered
          after
  unfolding do_request
  do_request-Ended is_fwd q api_key server params response h = transfer_end _ _ h
