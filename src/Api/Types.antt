-- ===== src/Api/Types.antt =====
-- The structures of ocgeo_api.h: the status and rate information of a reply, its results, and the
-- parameters of a request.
use ocgeo_fdw.Prelude.{Bool, Option, none, List, [], String, false}
use ocgeo_fdw.Prelude.Int.{ℤ, pos, negsuc, eqb_ℤ}
use ocgeo_fdw.Foreign.{Floating, Cjson}

pub record Status : Type 0 where
  pub code : ℤ
  pub message : Option String

pub record RateInfo : Type 0 where
  pub limit : ℤ
  pub remaining : ℤ
  pub reset : ℤ

abbrev pub no_rate_info : RateInfo
no_rate_info = record { limit = pos 0; remaining = pos 0; reset = pos 0 }

pub record LatLng (F : Floating) : Type 0 where
  pub lat : F.Double
  pub lng : F.Double

pub record LatLngBounds (F : Floating) : Type 0 where
  pub northeast : LatLng F
  pub southwest : LatLng F

-- The field `next` is the order of the list that holds the result.
pub record GeoResult {F : Floating} (J : Cjson F) : Type 0 where
  pub bounds : Option (LatLngBounds F)
  pub geometry : LatLng F
  pub confidence : ℤ
  pub internal : J.Node

-- What `results` points to: the results linked by `next` (none: NULL), or memory from malloc that
-- nothing was written to.
pub data Results {F : Floating} (J : Cjson F) : Type 0 where
  chain : List (GeoResult J) → Results J
  uninitialised : Results J

pub record Response {F : Floating} (J : Cjson F) : Type 0 where
  pub status : Status
  pub url : Option String
  pub rate_info : RateInfo
  pub total_results : ℤ
  pub results : Results J

-- A structure filled with zeros, as `palloc0` and `memset` leave it.
abbrev pub zero_response : {F : Floating} (J : Cjson F) → Response J
zero_response J = record {
  status = record { code = pos 0; message = none };
  url = none;
  rate_info = no_rate_info;
  total_results = pos 0;
  results = chain [];
}

pub record Params (F : Floating) : Type 0 where
  pub countrycode : Option String
  pub language : Option String
  pub limit : ℤ
  pub min_confidence : ℤ
  pub no_annotations : Bool
  pub no_dedupe : Bool
  pub no_record : Bool
  pub proximity : LatLng F
  pub roadinfo : Bool

-- `ocgeo_response_ok`, at a response that is not NULL.
abbrev pub response_ok : {F : Floating} {J : Cjson F} → Response J → Bool
response_ok r = eqb_ℤ r.status.code (pos 200)

module _ (F : Floating) where
  abbrev pub invalid_point : LatLng F
  invalid_point = record { lat = F.of_long (negsuc 90); lng = F.of_long (negsuc 180) }

  unfoldable pub default_params : Params F
  default_params = record {
    countrycode = none;
    language = none;
    limit = pos 0;
    min_confidence = pos 0;
    no_annotations = false;
    no_dedupe = false;
    no_record = false;
    proximity = invalid_point;
    roadinfo = false;
  }
