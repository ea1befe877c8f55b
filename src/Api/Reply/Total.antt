-- ===== src/Api/Reply/Total.antt =====
-- A document of the shape that the service sends is read without fault.
use ocgeo_fdw.Prelude.{
  ℕ, zero, suc, ◌≤◌, ◌≡◌, refl, Option, none, some, List, [], ◌∷◌, length, All, arith,
  if◌then◌else◌,
}
use ocgeo_fdw.Prelude.Int.{ℤ, pos, pos_part, ltb_ℤ}
use ocgeo_fdw.Prelude.Exec.{ok}
use ocgeo_fdw.Foreign.{Floating, Cjson}
use ocgeo_fdw.Api.Types.{Response, chain}
use ocgeo_fdw.Api.Reply.{
  string_value, parse_array, parse_response_json, parse_latlng, parse_bounds, parse_geometry,
  parse_rate, parse_result, parse_results,
}
use ocgeo_fdw.Api.Reply.Shape.{
  HasPoint, point_of, HasBounds, no_bounds, bounded, bounds_of, HasGeometry, no_geometry, located,
  geometry_of, HasResult, result_of, list_of, HasRate, no_rate, rated, rate_of, HasResults,
  no_results, listed, results_of, total_of, HasReply, message_of, response_of,
}

module _ {F : Floating} (J : Cjson F) where
  parse_latlng-point_of :
      (obj : J.Node) (h : HasPoint J obj) → parse_latlng J (some obj) ≡ ok (point_of J h)
  unfolding parse_latlng
  parse_latlng-point_of obj h = rw (h.lat.found, h.lng.found) refl

  parse_bounds-bounds_of :
      (n : J.Node) (h : HasBounds J n)
      → parse_bounds J (J.get_object_item_case_sensitive n "bounds") ≡ ok (bounds_of J h)
  parse_bounds-bounds_of n (no_bounds e) = rw e refl
  parse_bounds-bounds_of n (bounded b ne sw e e₁ e₂ p q) =
      rw (e, e₁, e₂, parse_latlng-point_of ne p, parse_latlng-point_of sw q) refl

  parse_geometry-geometry_of :
      (n : J.Node) (h : HasGeometry J n)
      → parse_geometry J (J.get_object_item_case_sensitive n "geometry") ≡ ok (geometry_of J h)
  parse_geometry-geometry_of n (no_geometry e) = rw e refl
  parse_geometry-geometry_of n (located g e p) = rw e (parse_latlng-point_of g p)

  parse_result-result_of :
      (n : J.Node) (h : HasResult J n) → parse_result J n ≡ ok (result_of J n h)
  unfolding parse_result
  parse_result-result_of n h =
      rw
        (
          h.confidence.found,
          parse_bounds-bounds_of n h.bounds,
          parse_geometry-geometry_of n h.geometry,
        )
        refl

  parse_results-list_of :
      (room : ℕ) (ns : List J.Node) (h : All (HasResult J) ns)
      → length ns ≤ room
      → parse_results J room ns ≡ ok (list_of J ns h)
  unfolding parse_results
  parse_results-list_of room [] h fits = refl
  parse_results-list_of zero (n ∷ ns) h fits = absurd (omega arith)
  parse_results-list_of (suc room) (n ∷ ns) h fits =
      rw (parse_result-result_of n h.0, parse_results-list_of room ns h.1 (omega arith)) refl

  parse_rate-rate_of :
      (json : J.Node) (h : HasRate J json)
      → parse_rate J (J.get_object_item json "rate") ≡ ok (rate_of J h)
  parse_rate-rate_of json (no_rate e) = rw e refl
  parse_rate-rate_of json (rated r e l m s) = rw (e, l.found, m.found, s.found) refl

  parse_array-results_of :
      (json : J.Node) (total : ℤ) (h : HasResults J json total)
      → (if ltb_ℤ (pos 0) total then parse_array J json total else ok (chain []))
        ≡ ok (chain (results_of J h))
  parse_array-results_of json total (no_results e) = rw e refl
  parse_array-results_of json total (listed results n ns e e₁ e₂ fits h) =
      rw (e, e₁, e₂, parse_results-list_of (pos_part total) (n ∷ ns) h fits) refl

  string_value-message_of : (o : Option J.Node) → string_value J o ≡ message_of J o
  string_value-message_of none = refl
  string_value-message_of (some n) = refl

  -- A document of the shape that the service sends is read without fault, and the response then
  -- holds all that the document says: the code and the message of its status, its rate information
  -- or zeros, its total, and for each element of its results, in their order, a result with its
  -- confidence, its bounds or none, its geometry or the invalid point, and the element itself. The
  -- URL stays.
  pub parse_response_json-response_of :
      (json : J.Node) (h : HasReply J json) (before : Response J)
      → parse_response_json J json before ≡ ok (response_of J h before.url)
  unfolding parse_response_json
  parse_response_json-response_of json h before =
      rw
        (
          h.status.found,
          h.code.found,
          parse_rate-rate_of json h.rate,
          h.has_total,
          parse_array-results_of json (total_of J h.total_js) h.results,
          string_value-message_of (J.get_object_item_case_sensitive h.status.node "message"),
        )
        refl
