-- ===== src/Api/Reply/Faults.antt =====
-- Replies that the reader does not survive: a document whose number of results is not the total
-- that it states.
use ocgeo_fdw.Prelude.{◌<◌, ◌≡◌, refl, true, some, [], length, All}
use ocgeo_fdw.Prelude.Int.{ℤ, pos, pos_part, ltb_ℤ}
use ocgeo_fdw.Prelude.Exec.{ok, crash, buffer_overflow, uninitialised_read, ◌>>=◌}
use ocgeo_fdw.Foreign.{Floating, Cjson}
use ocgeo_fdw.Api.Types.{Status, RateInfo, GeoResult, Response}
use ocgeo_fdw.Api.Reply.{
  json_int_value, parse_status, parse_rate, parse_result, parse_results, parse_response_json,
  response_cleanup,
}
use ocgeo_fdw.Api.Reply.Sound.{parse_results_overflow}

module _ {F : Floating} (J : Cjson F) where
  -- A document that is read without fault as far as its results, of which it states to have some.
  pub record HasHeader (json : J.Node) (status : Status) (rate : RateInfo) (obj : J.Node)
      (total : ℤ) : Type 0 where
    pub status_js : J.Node
    pub total_js : J.Node
    pub has_status : J.get_object_item_case_sensitive json "status" ≡ some status_js
    pub status_read : parse_status J status_js ≡ ok status
    pub rate_read : parse_rate J (J.get_object_item json "rate") ≡ ok rate
    pub has_total : J.get_object_item json "total_results" ≡ some total_js
    pub total_read : json_int_value J total_js ≡ total
    pub positive : ltb_ℤ (pos 0) total ≡ true
    pub has_results : J.get_object_item_case_sensitive json "results" ≡ some obj

  -- In a document that is read without fault as far as its results, more results than the stated
  -- positive total, each well formed, are written past the end of the array.
  pub parse_response_json_overflow :
      (json : J.Node) (status : Status) (rate : RateInfo) (obj : J.Node) (total : ℤ)
      (before : Response J)
      → HasHeader json status rate obj total
      → All (λ n. (r : GeoResult J) × (parse_result J n ≡ ok r)) (J.elements obj)
      → pos_part total < length (J.elements obj)
      → parse_response_json J json before ≡ crash buffer_overflow
  unfolding parse_response_json
  parse_response_json_overflow json status rate obj total before h parsed more =
      rw
        (
          h.has_status,
          h.status_read,
          h.rate_read,
          h.has_total,
          h.total_read,
          h.positive,
          h.has_results,
          parse_results_overflow (pos_part total) (J.elements obj) parsed more,
        )
        refl

  -- In a document that is read without fault as far as its results, an empty list of results under a
  -- positive total leaves the response with an array that nothing
  -- was written to, and the clean-up reads it.
  pub parse_response_json_empty :
      (json : J.Node) (status : Status) (rate : RateInfo) (obj : J.Node) (total : ℤ)
      (before : Response J)
      → HasHeader json status rate obj total
      → J.elements obj ≡ []
      → (parse_response_json J json before >>= response_cleanup J) ≡ crash uninitialised_read
  unfolding parse_response_json parse_results response_cleanup
  parse_response_json_empty json status rate obj total before h empty =
      rw
        (
          h.has_status, h.status_read, h.rate_read, h.has_total, h.total_read, h.positive,
          h.has_results, empty,
        )
        refl
