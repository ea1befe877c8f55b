-- ===== src/Api/Url/Fields.antt =====
-- The text of the URL: the server, and the fields of the query behind it.
use text.Mathlib.TextLemmas.{append-nil, append_assoc, nil-append}
use mathlib.Core.List.{append_assoc as list_append_assoc}
use ocgeo_fdw.Prelude.{
  ◌≡◌, refl, sym, ap, ◌∙◌, Bool, true, false, ◌&&◌, String, Option, none, some, List, [], ◌∷◌, ◌++◌,
  arith, if◌then◌else◌,
}
use ocgeo_fdw.Prelude.Int.{pos, negsuc}
use ocgeo_fdw.Prelude.Ctext.{◌<>◌, print_int}
use ocgeo_fdw.Foreign.{Floating, Sds, AppendsText, OrdersIntegers}
use ocgeo_fdw.Api.Types.{Params, default_params}
use ocgeo_fdw.Api.Url.{
  is_valid_latlng, is_set, printf_if, cat_if, printf_some, server_request_uri_impl,
}

-- A field "key=value" of a query, where it is given.
abbrev when : Bool → String → String → List (String × String)
when test key v = if test then (key, v) ∷ [] else []

abbrev given : String → Option String → List (String × String)
given key none = []
given key (some v) = (key, v) ∷ []

-- The fields of a request: those of a forward request alone, and those of any.
pub query_fields : {F : Floating} → Bool → Params F → List (String × String)
query_fields {F} is_fwd p =
    (if is_fwd then given "countrycode" p.countrycode else [])
    ++ (given "language" p.language
        ++ (when (is_set p.limit) "limit" (print_int p.limit)
            ++ (when (is_set p.min_confidence) "min_confidence" (print_int p.min_confidence)
                ++ (("no_annotations", if p.no_annotations then "1" else "0")
                    ∷ (when p.no_dedupe "no_dedupe" "1"
                        ++ (when p.no_record "no_record" "1"
                            ++ (when (is_fwd && p.roadinfo) "roadinfo" "1"
                                ++ when (is_fwd && is_valid_latlng p.proximity) "proximity" (
                                    F.print_8 p.proximity.lat
                                    <> ","
                                    <> F.print_8 p.proximity.lng))))))))

pub render : List (String × String) → String
render [] = ""
render ((key, v) ∷ fs) = "&" <> key <> "=" <> v <> render fs

render-append : (fs gs : List (String × String)) → render (fs ++ gs) ≡ render fs <> render gs
unfolding render
render-append [] gs = sym (nil-append _)
render-append ((key, v) ∷ fs) gs = simp (render-append fs gs, append_assoc)

-- A literal "&key=" in front of a value.
key_literal : (key v : String) → ("&" <> key <> "=") <> v ≡ "&" <> key <> "=" <> v
key_literal key v = simp append_assoc

no_field : (base : String) → "" <> base ≡ base <> render []
unfolding render
no_field base = nil-append base ∙ sym (append-nil base)

-- One more field behind those that a text holds.
extend :
    (base : String) {t t' : String} (fs gs : List (String × String))
    → t ≡ base <> render fs
    → t' ≡ t <> render gs
    → t' ≡ base <> render (fs ++ gs)
extend base fs gs h h' =
    h'
    ∙ ap (λ u. u <> render gs) h
    ∙ append_assoc base (render fs) (render gs)
    ∙ ap (λ u. base <> u) (sym (render-append fs gs))

-- A field whose text is written out with its value last.
one_field :
    (test : Bool) (key v : String)
    → (test ≡ true → "&" <> key <> "=" <> v ≡ render (when test key v))
      × (test ≡ false → when test key v ≡ [])
unfolding render
one_field true key v = (λ _. ap (λ t. "&" <> key <> "=" <> t) (sym (append-nil v)), λ h. cc)
one_field false key v = (λ h. cc, λ _. refl)

module _ {S : Sds} (laws : AppendsText S) where
  open laws use {text_empty, text_cat, text_cat_printf}

  text_printf_if :
      (test : Bool) (s : String) (url : S.Buffer) (fs : List (String × String))
      → (test ≡ true → s ≡ render fs)
      → (test ≡ false → fs ≡ [])
      → S.text_of (printf_if S test s url) ≡ S.text_of url <> render fs
  unfolding render
  text_printf_if true s url fs h h' = text_cat_printf url s ∙ ap (λ t. S.text_of url <> t) (h refl)
  text_printf_if false s url fs h h' = rw (h' refl) (sym (append-nil _))

  text_cat_if :
      (test : Bool) (s : String) (url : S.Buffer) (fs : List (String × String))
      → (test ≡ true → s ≡ render fs)
      → (test ≡ false → fs ≡ [])
      → S.text_of (cat_if S test s url) ≡ S.text_of url <> render fs
  unfolding render
  text_cat_if true s url fs h h' = text_cat url s ∙ ap (λ t. S.text_of url <> t) (h refl)
  text_cat_if false s url fs h h' = rw (h' refl) (sym (append-nil _))

  -- The literal of the code is the key between its separators.
  text_printf_field :
      (test : Bool) (key v s : String) (url : S.Buffer)
      → s ≡ "&" <> key <> "=" <> v
      → S.text_of (printf_if S test s url) ≡ S.text_of url <> render (when test key v)
  text_printf_field test key v s url e =
      text_printf_if test s url (when test key v) (λ h. e ∙ (one_field test key v).0 h)
        (one_field test key v).1

  text_cat_field :
      (test : Bool) (key v s : String) (url : S.Buffer)
      → s ≡ "&" <> key <> "=" <> v
      → S.text_of (cat_if S test s url) ≡ S.text_of url <> render (when test key v)
  text_cat_field test key v s url e =
      text_cat_if test s url (when test key v) (λ h. e ∙ (one_field test key v).0 h)
        (one_field test key v).1

  text_countrycode :
      (is_fwd : Bool) (o : Option String) (url : S.Buffer)
      → S.text_of (printf_some S is_fwd "&countrycode=" o url)
        ≡ S.text_of url <> render (if is_fwd then given "countrycode" o else [])
  unfolding render
  text_countrycode true none url = sym (append-nil _)
  text_countrycode false none url = sym (append-nil _)
  text_countrycode false (some v) url = sym (append-nil _)
  text_countrycode true (some v) url =
      text_printf_field true "countrycode" v ("&countrycode=" <> v) url
        (key_literal "countrycode" v)

  text_language :
      (o : Option String) (url : S.Buffer)
      → S.text_of (printf_some S true "&language=" o url)
        ≡ S.text_of url <> render (given "language" o)
  unfolding render
  text_language none url = sym (append-nil _)
  text_language (some v) url =
      text_printf_field true "language" v ("&language=" <> v) url (key_literal "language" v)

  text_no_annotations :
      (b : Bool) (url : S.Buffer)
      → S.text_of (S.cat_printf url ("&no_annotations=" <> print_int (if b then pos 1 else pos 0)))
        ≡ S.text_of url <> render (("no_annotations", if b then "1" else "0") ∷ [])
  unfolding print_int
  text_no_annotations true url =
      text_printf_field true "no_annotations" "1" "&no_annotations=1" url refl
  text_no_annotations false url =
      text_printf_field true "no_annotations" "0" "&no_annotations=0" url refl

  -- The URL of any request is the server, the escaped query, the key, and the fields that the
  -- parameters give, in this order.
  pub text_of-server_request_uri_impl :
      {F : Floating} (escape : String → String) (api_key server query : String) (is_fwd : Bool)
      (p : Params F)
      → S.text_of (server_request_uri_impl S escape api_key server query is_fwd p)
        ≡ (server <> "?q=" <> escape query <> "&key=" <> api_key) <> render (query_fields is_fwd p)
  unfolding server_request_uri_impl query_fields
  text_of-server_request_uri_impl {F} escape api_key server query is_fwd p =
      let base = server <> "?q=" <> escape query <> "&key=" <> api_key in
      let lat = F.print_8 p.proximity.lat in
      let lng = F.print_8 p.proximity.lng in
      let at = lat <> "," <> lng in
      let start : S.text_of (S.cat_printf S.empty base) ≡ base <> render [] =
        text_cat_printf S.empty base ∙ ap (λ t. t <> base) text_empty ∙ no_field base in
      let e₁ = extend base _ _ start (text_countrycode is_fwd p.countrycode _) in
      let e₂ = extend base _ _ e₁ (text_language p.language _) in
      let e₃ = extend base _ _ e₂ (
        text_printf_field (is_set p.limit) "limit" (print_int p.limit) _ _
          (key_literal "limit" (print_int p.limit))) in
      let e₄ = extend base _ _ e₃ (
        text_printf_field (is_set p.min_confidence) "min_confidence" (print_int p.min_confidence) _
          _ (key_literal "min_confidence" (print_int p.min_confidence))) in
      let e₅ = extend base _ _ e₄ (text_no_annotations p.no_annotations _) in
      let e₆ = extend base _ _ e₅ (text_cat_field p.no_dedupe "no_dedupe" "1" _ _ refl) in
      let e₇ = extend base _ _ e₆ (text_cat_field p.no_record "no_record" "1" _ _ refl) in
      let e₈ = extend base _ _ e₇ (text_cat_field (is_fwd && p.roadinfo) "roadinfo" "1" _ _ refl) in
      let e₉ = extend base _ _ e₈ (
        text_printf_field (is_fwd && is_valid_latlng p.proximity) "proximity" at _ _
          (key_literal "proximity" at)) in
      e₉ ∙ ap (λ fs. base <> render fs) (simp list_append_assoc)

-- A request with the default parameters says nothing but "no_annotations=0": the invalid point of
-- the default proximity is not sent.
query_fields-default_params :
    {F : Floating}
    → OrdersIntegers F
    → (is_fwd : Bool) → query_fields is_fwd (default_params F) ≡ ("no_annotations", "0") ∷ []
unfolding query_fields default_params is_valid_latlng
query_fields-default_params o true =
    rw (o.same_order (negsuc 89) (negsuc 90) (omega arith) (omega arith)) refl
query_fields-default_params o false = refl
