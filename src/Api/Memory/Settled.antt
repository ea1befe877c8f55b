-- ===== src/Api/Memory/Settled.antt =====
-- Sequences of events, one after the other, and what a response holds.
use ocgeo_fdw.Prelude.{
  ℕ, zero, suc, ◌+◌, ◌≡◌, ap, ◌∙◌, Option-cases, inl, inr, Option, none, some, String, List, [],
  ◌∷◌, ◌++◌, arith, if◌then◌else◌, ◌==◌,
}
use mathlib.Core.Option.{some-injective}
use ocgeo_fdw.Foreign.{Floating, Cjson}
use ocgeo_fdw.Api.Types.{LatLngBounds, GeoResult, Results, chain, uninitialised, Response}
use ocgeo_fdw.Prelude.Exec.{ok, >>=-eq-ok, ok-injective}
use ocgeo_fdw.Api.Reply.{
  parse_bounds, parse_latlng, parse_result, parse_results, parse_geometry, json_obj_get_int,
}
use ocgeo_fdw.Api.Memory.{
  Block, tag, url, results, bounds, Event, acquires, releases, after_event, settle, bounds_acquired,
}

pub settle-++ :
    (b : Block) (es fs : List Event) (n : ℕ) {m : ℕ}
    → settle b es n ≡ some m
    → settle b (es ++ fs) n ≡ settle b fs m
unfolding settle
settle-++ b [] fs n {m = m} h = ap (settle b fs) (some-injective n m h)
settle-++ b (e ∷ es) fs n h = elim (Option-cases (after_event b e n)) [
  | inl refused ↦ let h' = rw (refused, settle) at h in cc
  | inr (m, allowed) ↦ rw (allowed, settle) (settle-++ b es fs m (rw (allowed, settle) at h))
]

-- One block of a kind.
abbrev pub one : Block → Block → ℕ
one c b = if tag b == tag c then 1 else 0

pub settle-acquires :
    (c b : Block) (es : List Event) (n : ℕ)
    → settle b (acquires c ∷ es) n ≡ settle b es (one c b + n)
unfolding settle
settle-acquires c b es n = ground arith

pub settle-releases :
    (c b : Block) (es : List Event) (n : ℕ) {held : ℕ}
    → held ≡ one c b + n
    → settle b (releases c ∷ es) held ≡ settle b es n
unfolding settle
settle-releases c b es n {held = zero} h = ground (arith, h)
settle-releases c b es n {held = suc m} h = ground (arith, h)

-- What is held for a URL, for the bounds of a result, and for the results.
abbrev pub url_held : Option String → Block → ℕ
url_held none b = 0
url_held (some _) b = one url b

abbrev pub bounds_held {ℓ} : {A : Type ℓ} → Option A → Block → ℕ
bounds_held none b = 0
bounds_held (some _) b = one bounds b

module _ {F : Floating} {J : Cjson F} where
  abbrev pub all_bounds_held : List (GeoResult J) → Block → ℕ
  all_bounds_held [] b = 0
  all_bounds_held (r ∷ rs) b = bounds_held r.bounds b + all_bounds_held rs b

  abbrev pub results_held : Results J → Block → ℕ
  results_held uninitialised b = one results b
  results_held (chain []) b = 0
  results_held (chain (r ∷ rs)) b = one results b + all_bounds_held (r ∷ rs) b

  -- The memory that a response owns.
  abbrev pub response_held : Response J → Block → ℕ
  response_held r b = url_held r.url b + results_held r.results b

module _ {F : Floating} (J : Cjson F) where
  parse_bounds-held :
      (o : Option J.Node) {x : Option (LatLngBounds F)} (b : Block) (n : ℕ) (es : List Event)
      → parse_bounds J o ≡ ok x
      → settle b (elim o [ none ↦ es | some _ ↦ acquires bounds ∷ es ]) n
        ≡ settle b es (bounds_held x b + n)
  parse_bounds-held none b n es h = rw (← ok-injective h) (ap (settle b es) (omega arith))
  parse_bounds-held (some js) b n es h =
      let (ne, e, h₁) = >>=-eq-ok (parse_latlng J (J.get_object_item js "northeast")) _ h in
      let (sw, e', h₂) = >>=-eq-ok (parse_latlng J (J.get_object_item js "southwest")) _ h₁ in
      rw (← ok-injective h₂) (settle-acquires bounds b es n)

  parse_result_bounds :
      (n : J.Node) {r : GeoResult J}
      → parse_result J n ≡ ok r
      → parse_bounds J (J.get_object_item_case_sensitive n "bounds") ≡ ok r.bounds
  unfolding parse_result
  parse_result_bounds n h =
      let (confidence, e, h₁) = >>=-eq-ok (json_obj_get_int J (some n) "confidence") _ h in
      let (x, e', h₂) =
        >>=-eq-ok (parse_bounds J (J.get_object_item_case_sensitive n "bounds")) _ h₁ in
      let (g, e'', h₃) =
        >>=-eq-ok (parse_geometry J (J.get_object_item_case_sensitive n "geometry")) _ h₂ in
      e' ∙ ap (λ (r : GeoResult J). ok r.bounds) (ok-injective h₃)

  pub parse_results-held :
      (room : ℕ) (ns : List J.Node) {rs : List (GeoResult J)} (b : Block) (n : ℕ)
      → parse_results J room ns ≡ ok rs
      → settle b (bounds_acquired J ns) n ≡ some (all_bounds_held rs b + n)
  unfolding parse_results bounds_acquired settle
  parse_results-held room [] b n h = rw (← ok-injective h) (ap some (omega arith))
  parse_results-held zero (x ∷ ns) b n h = cc
  parse_results-held (suc room) (x ∷ ns) b n h =
      let (r, e, h₁) = >>=-eq-ok (parse_result J x) _ h in
      let (rs, e', h₂) = >>=-eq-ok (parse_results J room ns) _ h₁ in
      rw (← ok-injective h₂) (
        parse_bounds-held _ b n (bounds_acquired J ns) (parse_result_bounds x e)
        ∙ parse_results-held room ns b (bounds_held r.bounds b + n) e'
        ∙ ap some (omega arith))
