-- ===== src/Api/Reply/Sound.antt =====
-- What a response holds after a reply has been read, and how reading it fails.
use ocgeo_fdw.Prelude.{
  ℕ, zero, suc, ◌≤◌, ◌<◌, ◌≡◌, refl, sym, ap, ◌∙◌, String, inl, inr, Bool-cases, if◌then◌else◌,
  true, false, Option, none, some, List, [], ◌∷◌, map, length, All, arith,
}
use ocgeo_fdw.Prelude.Int.{ℤ, pos, pos_part, ltb_ℤ}
use ocgeo_fdw.Prelude.Exec.{Exec, ok, crash, buffer_overflow, >>=-eq-ok, ok-injective}
use ocgeo_fdw.Foreign.{Floating, Cjson}
use ocgeo_fdw.Api.Types.{RateInfo, no_rate_info, Status, GeoResult, Results, chain, Response}
use ocgeo_fdw.Api.Reply.{
  deref, assert_some, json_int_value, json_obj_get_int, parse_status, parse_rate, parse_result,
  parse_results, link_results, parse_array, parse_response_json,
}

assert_some-eq-ok {ℓ} : {A : Type ℓ} (o : Option A) {a : A} → assert_some o ≡ ok a → o ≡ some a
assert_some-eq-ok none h = cc
assert_some-eq-ok (some a) h = cc

deref-eq-ok {ℓ} : {A : Type ℓ} (o : Option A) {a : A} → deref o ≡ ok a → o ≡ some a
deref-eq-ok none h = cc
deref-eq-ok (some a) h = cc

module _ {F : Floating} (J : Cjson F) where
  json_obj_get_int-eq-ok :
      (o : J.Node) (name : String) {v : ℤ}
      → json_obj_get_int J (some o) name ≡ ok v
      → (n : J.Node) × (J.get_object_item_case_sensitive o name ≡ some n) × (v ≡ J.valueint n)
  json_obj_get_int-eq-ok o name h =
      let (n, e, e') = >>=-eq-ok (deref (J.get_object_item_case_sensitive o name)) _ h in
      (n, deref-eq-ok _ e, sym (ok-injective e'))

  parse_status-code :
      (o : J.Node) {s : Status}
      → parse_status J o ≡ ok s
      → (n : J.Node) × (J.get_object_item_case_sensitive o "code" ≡ some n)
        × (s.code ≡ J.valueint n)
  parse_status-code o h =
      let (code, e, e') = >>=-eq-ok (json_obj_get_int J (some o) "code") _ h in
      let (n, found, same) = json_obj_get_int-eq-ok o "code" e in
      (n, found, ap (λ (s : Status). s.code) (sym (ok-injective e')) ∙ same)

  -- The rate information: zeros without the object "rate", and else the three numbers in it.
  pub data HoldsRate (o : Option J.Node) (rate : RateInfo) : Type 0 where
    absent : o ≡ none → rate ≡ no_rate_info → HoldsRate o rate
    stated :
        (obj limit_js remaining_js reset_js : J.Node)
        → o ≡ some obj
        → J.get_object_item_case_sensitive obj "limit" ≡ some limit_js
        → J.get_object_item_case_sensitive obj "remaining" ≡ some remaining_js
        → J.get_object_item_case_sensitive obj "reset" ≡ some reset_js
        → rate.limit ≡ J.valueint limit_js
        → rate.remaining ≡ J.valueint remaining_js
        → rate.reset ≡ J.valueint reset_js
        → HoldsRate o rate

  parse_rate-HoldsRate :
      (o : Option J.Node) {rate : RateInfo} → parse_rate J o ≡ ok rate → HoldsRate o rate
  parse_rate-HoldsRate none h = absent refl (sym (ok-injective h))
  parse_rate-HoldsRate (some obj) h =
      let (l, e₁, h₁) = >>=-eq-ok (json_obj_get_int J (some obj) "limit") _ h in
      let (m, e₂, h₂) = >>=-eq-ok (json_obj_get_int J (some obj) "remaining") _ h₁ in
      let (s, e₃, h₃) = >>=-eq-ok (json_obj_get_int J (some obj) "reset") _ h₂ in
      let (limit_js, f₁, v₁) = json_obj_get_int-eq-ok obj "limit" e₁ in
      let (remaining_js, f₂, v₂) = json_obj_get_int-eq-ok obj "remaining" e₂ in
      let (reset_js, f₃, v₃) = json_obj_get_int-eq-ok obj "reset" e₃ in
      let same = ok-injective h₃ in
      stated obj limit_js remaining_js reset_js refl f₁ f₂ f₃
        (ap (λ (r : RateInfo). r.limit) (sym same) ∙ v₁)
        (ap (λ (r : RateInfo). r.remaining) (sym same) ∙ v₂)
        (ap (λ (r : RateInfo). r.reset) (sym same) ∙ v₃)

module _ {F : Floating} {J : Cjson F} where
  parse_result_internal : (n : J.Node) {r : GeoResult J} → parse_result J n ≡ ok r → r.internal ≡ n
  unfolding parse_result
  parse_result_internal n h = ground arith

  parse_results_sound :
      (room : ℕ) (ns : List J.Node) {rs : List (GeoResult J)}
      → parse_results J room ns ≡ ok rs
      → (map (λ (r : GeoResult J). r.internal) rs ≡ ns) × (length ns ≤ room)
  unfolding parse_results
  parse_results_sound room [] h = (rw (← ok-injective h) refl, omega arith)
  parse_results_sound zero (n ∷ ns) h = cc
  parse_results_sound (suc room) (n ∷ ns) h =
      let (r, e, h') = >>=-eq-ok (parse_result J n) _ h in
      let (rs', e', h'') = >>=-eq-ok (parse_results J room ns) _ h' in
      let (same, fits) = parse_results_sound room ns e' in
      (rw (← ok-injective h'') (cc (parse_result_internal n e, same)), omega arith)

  -- More results than `total_results` are written beyond the end of the array.
  pub parse_results_overflow :
      (room : ℕ) (ns : List J.Node)
      → All (λ n. (r : GeoResult J) × (parse_result J n ≡ ok r)) ns
      → room < length ns
      → parse_results J room ns ≡ crash buffer_overflow
  unfolding parse_results
  parse_results_overflow room [] h fits = absurd (omega arith)
  parse_results_overflow zero (n ∷ ns) h fits = refl
  parse_results_overflow (suc room) (n ∷ ns) h fits =
      rw (h.0.1, parse_results_overflow room ns h.1 (omega arith)) refl

  -- The results of a response: none are wanted if the total is not positive; else they are the
  -- elements of "results" in their order, no more than the total says.
  pub data HoldsResults (json : J.Node) (total : ℤ) (results : Results J) : Type 0 where
    none_wanted : ltb_ℤ (pos 0) total ≡ false → results ≡ chain [] → HoldsResults json total results
    listed :
        (obj : J.Node) (rs : List (GeoResult J))
        → ltb_ℤ (pos 0) total ≡ true
        → J.get_object_item_case_sensitive json "results" ≡ some obj
        → results ≡ link_results J rs
        → map (λ (r : GeoResult J). r.internal) rs ≡ J.elements obj
        → length (J.elements obj) ≤ pos_part total
        → HoldsResults json total results

  pub record IsReply (json : J.Node) (before after : Response J) : Type 0 where
    pub url : after.url ≡ before.url
    pub status_js : J.Node
    pub code_js : J.Node
    pub total_js : J.Node
    pub has_status : J.get_object_item_case_sensitive json "status" ≡ some status_js
    pub has_code : J.get_object_item_case_sensitive status_js "code" ≡ some code_js
    pub has_total : J.get_object_item json "total_results" ≡ some total_js
    pub code : after.status.code ≡ J.valueint code_js
    pub rate : HoldsRate J (J.get_object_item json "rate") after.rate_info
    pub total : after.total_results ≡ json_int_value J total_js
    pub results : HoldsResults json after.total_results after.results

  abbrev results_of : J.Node → ℤ → Exec (Results J)
  results_of json total = if ltb_ℤ (pos 0) total then parse_array J json total else ok (chain [])

  parse_array_listed :
      (json : J.Node) (total : ℤ) {results : Results J}
      → ltb_ℤ (pos 0) total ≡ true
      → parse_array J json total ≡ ok results
      → HoldsResults json total results
  parse_array_listed json total wanted h =
      let (obj, e₁, h₁) =
        >>=-eq-ok (assert_some (J.get_object_item_case_sensitive json "results")) _ h in
      let (rs, e₂, h₂) = >>=-eq-ok (parse_results J (pos_part total) (J.elements obj)) _ h₁ in
      let (same, fits) = parse_results_sound (pos_part total) (J.elements obj) e₂ in
      listed obj rs wanted (assert_some-eq-ok _ e₁) (sym (ok-injective h₂)) same fits

  parse_array-HoldsResults :
      (json : J.Node) (total : ℤ) {results : Results J}
      → results_of json total ≡ ok results
      → HoldsResults json total results
  parse_array-HoldsResults json total h = elim (Bool-cases (ltb_ℤ (pos 0) total)) [
    | inl wanted ↦ parse_array_listed json total wanted (rw wanted at h)
    | inr not_wanted ↦ none_wanted not_wanted (sym (ok-injective (rw not_wanted at h)))
  ]

  -- A response that was read from a document holds what the document says: the code of its
  -- status, its rate information or zeros if it has none, its total, and its results in their
  -- order, no more than the total; the URL stays.
  pub parse_response_json-IsReply :
      (json : J.Node) (before : Response J) {after : Response J}
      → parse_response_json J json before ≡ ok after
      → IsReply json before after
  unfolding parse_response_json
  parse_response_json-IsReply json before {after} h =
      let (status_js, e₁, h₁) =
        >>=-eq-ok (assert_some (J.get_object_item_case_sensitive json "status")) _ h in
      let (status, e₂, h₂) = >>=-eq-ok (parse_status J status_js) _ h₁ in
      let (rate, e₃, h₃) = >>=-eq-ok (parse_rate J (J.get_object_item json "rate")) _ h₂ in
      let (total_js, e₄, h₄) =
        >>=-eq-ok (assert_some (J.get_object_item json "total_results")) _ h₃ in
      let (results, e₅, h₅) = >>=-eq-ok (results_of json (json_int_value J total_js)) _ h₄ in
      let (code_js, found, code) = parse_status-code J status_js e₂ in
      let same = ok-injective h₅ in
      rw (← same) (record {
        url = refl;
        status_js = status_js;
        code_js = code_js;
        total_js = total_js;
        has_status = assert_some-eq-ok _ e₁;
        has_code = found;
        has_total = assert_some-eq-ok _ e₄;
        code = code;
        rate = parse_rate-HoldsRate J (J.get_object_item json "rate") e₃;
        total = refl;
        results = parse_array-HoldsResults json (json_int_value J total_js) e₅;
      })
