-- ===== src/Api/Memory/Acquired.antt =====
-- What the reading of a reply acquires, and what the end of a request releases.
use ocgeo_fdw.Prelude.{
  ℕ, ◌+◌, ◌≡◌, refl, ap, ◌∙◌, sym, Option, Option-cases, inl, inr, none, some, String, List, [],
  ◌∷◌, arith, Bool, true, false, if◌then◌else◌, Bool-cases,
}
use mathlib.Core.Path.{subst}
use ocgeo_fdw.Prelude.Int.{ℤ, pos, ltb_ℤ, pos_part}
use ocgeo_fdw.Prelude.Exec.{ok, >>=-eq-ok, ok-injective}
use ocgeo_fdw.Foreign.{Floating, Cjson, Sds, Curl}
use ocgeo_fdw.Api.Types.{GeoResult, Results, chain, Response}
use ocgeo_fdw.Api.Reply.{
  assert_some, parse_status, parse_rate, json_int_value, parse_array, parse_results, link_results,
  parse_response_json,
}
use ocgeo_fdw.Api.Request.{read_body, finish_transfer}
use ocgeo_fdw.Api.Memory.{
  Block, curl_handle, body, document, results, Event, acquires, releases, settle, bounds_acquired,
  array_events, parse_events, body_events, transfer_events,
}
use ocgeo_fdw.Api.Memory.Settled.{
  settle-acquires, settle-releases, one, all_bounds_held, results_held, parse_results-held,
}

module _ {F : Floating} (J : Cjson F) where
  assert_some-ok : {A : Type 0} (o : Option A) {a : A} → assert_some o ≡ ok a → o ≡ some a
  assert_some-ok none h = cc
  assert_some-ok (some a) h = cc

  link_results-held :
      (rs : List (GeoResult J)) (b : Block)
      → results_held (link_results J rs) b ≡ one results b + all_bounds_held rs b
  link_results-held [] b = omega arith
  link_results-held (r ∷ rs) b = refl

  parse_array-held :
      (json : J.Node) (total : ℤ) {rs : Results J} (b : Block) (n : ℕ)
      → parse_array J json total ≡ ok rs
      → settle b (array_events J (J.get_object_item_case_sensitive json "results")) n
        ≡ some (results_held rs b + n)
  parse_array-held json total b n h =
      let (obj, e, h₁) =
        >>=-eq-ok (assert_some (J.get_object_item_case_sensitive json "results")) _ h in
      let (rs, e', h₂) = >>=-eq-ok (parse_results J (pos_part total) (J.elements obj)) _ h₁ in
      rw (assert_some-ok _ e, ← ok-injective h₂)
        (settle-acquires results b (bounds_acquired J (J.elements obj)) n
          ∙ parse_results-held J _ (J.elements obj) b (one results b + n) e'
          ∙ ap some (omega (arith, link_results-held rs b)))

  wanted-held :
      (json : J.Node) (total : ℤ) {rs : Results J} (b : Block) (n : ℕ)
      → (if ltb_ℤ (pos 0) total then parse_array J json total else ok (chain [])) ≡ ok rs
      → settle b
          (if ltb_ℤ (pos 0) total
            then array_events J (J.get_object_item_case_sensitive json "results")
            else [])
          n
        ≡ some (results_held rs b + n)
  unfolding settle
  wanted-held json total b n h = elim (Bool-cases (ltb_ℤ (pos 0) total)) [
    | inl wanted ↦ rw wanted (parse_array-held json total b n (rw wanted at h))
    | inr unwanted ↦ rw (unwanted, ← ok-injective (rw unwanted at h)) (ap some (omega arith))
  ]

  total-held :
      (json total_js : J.Node) {rs : Results J} (b : Block) (n : ℕ)
      → J.get_object_item json "total_results" ≡ some total_js
      → (if ltb_ℤ (pos 0) (json_int_value J total_js)
          then parse_array J json (json_int_value J total_js)
          else ok (chain []))
        ≡ ok rs
      → settle b (parse_events J json) n ≡ some (results_held rs b + n)
  total-held json total_js b n e h =
      rw (e, parse_events) (wanted-held json (json_int_value J total_js) b n h)

  -- What is acquired in reading a document is what its results hold.
  parse_response_json-held :
      (json : J.Node) (before : Response J) {after : Response J} (b : Block) (n : ℕ)
      → parse_response_json J json before ≡ ok after
      → (settle b (parse_events J json) n ≡ some (results_held after.results b + n))
        × (after.url ≡ before.url)
  unfolding parse_response_json
  parse_response_json-held json before b n h =
      let (status_js, e₁, h₁) =
        >>=-eq-ok (assert_some (J.get_object_item_case_sensitive json "status")) _ h in
      let (status, e₂, h₂) = >>=-eq-ok (parse_status J status_js) _ h₁ in
      let (rate, e₃, h₃) = >>=-eq-ok (parse_rate J (J.get_object_item json "rate")) _ h₂ in
      let (total_js, e₄, h₄) =
        >>=-eq-ok (assert_some (J.get_object_item json "total_results")) _ h₃ in
      let total = json_int_value J total_js in
      let (rs, e₅, h₅) =
        >>=-eq-ok (if ltb_ℤ (pos 0) total then parse_array J json total else ok (chain [])) _ h₄ in
      (
        total-held json total_js b n (assert_some-ok _ e₄) e₅
            ∙ ap (λ (r : Response J). some (results_held r.results b + n)) (ok-injective h₅),
        ap (λ (r : Response J). r.url) (sym (ok-injective h₅)),
      )

  -- What a request that has returned loses sight of without releasing it: a document that was
  -- parsed, and the results that the response had before they are replaced.
  abbrev pub lost : Bool → Results J → Block → ℕ
  lost false before b = 0
  lost true before b = one document b + results_held before b

  -- The end of a request, from the body on, gives the body back.
  abbrev Closes : List Event → Response J → Bool → Response J → Type 0
  Closes es before answered after =
      ((b : Block) (n : ℕ)
        → settle b es (one body b + (results_held before.results b + n))
          ≡ some (lost answered before.results b + (results_held after.results b + n)))
      × (after.url ≡ before.url)

  body_only :
      (before : Response J) {answered : Bool} {after : Response J}
      → answered ≡ false
      → after ≡ before
      → Closes (releases body ∷ []) before answered after
  unfolding settle
  body_only before e e' =
      rw (e, e') ((λ b n. settle-releases body b [] _ refl ∙ ap some (omega arith)), refl)

  document-Closes :
      (json : J.Node) (before : Response J) {after : Response J}
      → parse_response_json J json before ≡ ok after
      → Closes (acquires document ∷ releases body ∷ parse_events J json) before true after
  document-Closes json before read = (
    (λ b n.
        settle-acquires document b _ _
        ∙ settle-releases body b (parse_events J json)
            (one document b + (results_held before.results b + n)) (omega arith)
        ∙ (parse_response_json-held json before b _ read).0
        ∙ ap some (omega arith)),
    (parse_response_json-held json before curl_handle 0 read).1,
  )

  module _ (S : Sds) (C : Curl) where
    body_events-Closes :
        (received : S.Buffer) (before : Response J) {answered : Bool} {after : Response J}
        → read_body J S C received before ≡ ok (answered, after)
        → Closes (body_events J S C received) before answered after
    body_events-Closes received before {answered = answered} {after = after} h =
        elim (Option-cases (J.parse (S.text_of received))) [
          | inl no_document ↦
              let h' = rw (no_document, read_body) at h in
              rw (no_document, body_events)
                (body_only before {answered = answered} {after = after} (cc) (cc))
          | inr (json, parsed) ↦
              let (r, read, same) =
                >>=-eq-ok (parse_response_json J json before) _ (rw (parsed, read_body) at h) in
              rw (parsed, body_events)
                (subst
                  (λ (x : Bool × Response J).
                    Closes (acquires document ∷ releases body ∷ parse_events J json) before x.0 x.1)
                  (ok-injective same) (document-Closes json before read))
        ]

    pub transfer_events-Closes :
        (t : List String × Bool) (before : Response J) {answered : Bool} {after : Response J}
        → finish_transfer J S C t before ≡ ok (answered, after)
        → Closes (transfer_events J S C t) before answered after
    transfer_events-Closes (chunks, true) before h = body_events-Closes _ before h
    transfer_events-Closes (chunks, false) before {answered = answered} {after = after} h =
        body_only before {answered = answered} {after = after} (cc) (cc)
