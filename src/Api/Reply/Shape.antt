-- ===== src/Api/Reply/Shape.antt =====
-- The shape of the documents that the service sends, and what is read from each part of them.
use ocgeo_fdw.Prelude.{
  ◌≤◌, ◌≡◌, true, false, String, Option, none, some, List, [], ◌∷◌, length, All, if◌then◌else◌,
}
use ocgeo_fdw.Prelude.Int.{ℤ, pos, pos_part, ltb_ℤ}
use ocgeo_fdw.Foreign.{Floating, Cjson}
use ocgeo_fdw.Api.Types.{
  chain, Response, RateInfo, no_rate_info, LatLng, LatLngBounds, GeoResult, invalid_point,
}

module _ {F : Floating} (J : Cjson F) where
  -- An object has a member of a name.
  pub record HasMember (obj : J.Node) (name : String) : Type 0 where
    pub node : J.Node
    pub found : J.get_object_item_case_sensitive obj name ≡ some node

  pub record HasPoint (obj : J.Node) : Type 0 where
    pub lat : HasMember obj "lat"
    pub lng : HasMember obj "lng"

  abbrev pub point_of : {obj : J.Node} → HasPoint obj → LatLng F
  point_of h = record { lat = J.valuedouble h.lat.node; lng = J.valuedouble h.lng.node }

  -- The bounds of a result may be missing.
  pub data HasBounds (result : J.Node) : Type 0 where
    no_bounds : J.get_object_item_case_sensitive result "bounds" ≡ none → HasBounds result
    bounded :
        (bounds northeast southwest : J.Node)
        → J.get_object_item_case_sensitive result "bounds" ≡ some bounds
        → J.get_object_item bounds "northeast" ≡ some northeast
        → J.get_object_item bounds "southwest" ≡ some southwest
        → HasPoint northeast
        → HasPoint southwest
        → HasBounds result

  abbrev pub bounds_of : {result : J.Node} → HasBounds result → Option (LatLngBounds F)
  bounds_of (no_bounds e) = none
  bounds_of (bounded b ne sw e e₁ e₂ p q) =
      some (record { northeast = point_of p; southwest = point_of q })

  -- And so may its geometry, and it is an invalid point then.
  pub data HasGeometry (result : J.Node) : Type 0 where
    no_geometry : J.get_object_item_case_sensitive result "geometry" ≡ none → HasGeometry result
    located :
        (geometry : J.Node)
        → J.get_object_item_case_sensitive result "geometry" ≡ some geometry
        → HasPoint geometry
        → HasGeometry result

  abbrev pub geometry_of : {result : J.Node} → HasGeometry result → LatLng F
  geometry_of (no_geometry e) = invalid_point F
  geometry_of (located g e p) = point_of p

  pub record HasResult (result : J.Node) : Type 0 where
    pub confidence : HasMember result "confidence"
    pub bounds : HasBounds result
    pub geometry : HasGeometry result

  abbrev pub result_of : (result : J.Node) → HasResult result → GeoResult J
  result_of result h = record {
    bounds = bounds_of h.bounds;
    geometry = geometry_of h.geometry;
    confidence = J.valueint h.confidence.node;
    internal = result;
  }

  abbrev pub list_of : (ns : List J.Node) → All HasResult ns → List (GeoResult J)
  list_of [] h = []
  list_of (n ∷ ns) h = result_of n h.0 ∷ list_of ns h.1

  -- The rate information is missing for a paying customer.
  pub data HasRate (json : J.Node) : Type 0 where
    no_rate : J.get_object_item json "rate" ≡ none → HasRate json
    rated :
        (rate : J.Node)
        → J.get_object_item json "rate" ≡ some rate
        → HasMember rate "limit"
        → HasMember rate "remaining"
        → HasMember rate "reset"
        → HasRate json

  abbrev pub rate_of : {json : J.Node} → HasRate json → RateInfo
  rate_of (no_rate e) = no_rate_info
  rate_of (rated rate e l m r) = record {
    limit = J.valueint l.node;
    remaining = J.valueint m.node;
    reset = J.valueint r.node;
  }

  -- The results are those of a list with at least one and no more than the stated total, if that is
  -- positive.
  pub data HasResults (json : J.Node) (total : ℤ) : Type 0 where
    no_results : ltb_ℤ (pos 0) total ≡ false → HasResults json total
    listed :
        (results n : J.Node) (ns : List J.Node)
        → ltb_ℤ (pos 0) total ≡ true
        → J.get_object_item_case_sensitive json "results" ≡ some results
        → J.elements results ≡ n ∷ ns
        → length (n ∷ ns) ≤ pos_part total
        → All HasResult (n ∷ ns)
        → HasResults json total

  abbrev pub results_of : {json : J.Node} {total : ℤ} → HasResults json total → List (GeoResult J)
  results_of (no_results e) = []
  results_of (listed results n ns e e₁ e₂ fits h) = list_of (n ∷ ns) h

  -- The total may be null, which counts as 0.
  abbrev pub total_of : J.Node → ℤ
  total_of n = if J.is_null n then pos 0 else J.valueint n

  pub record HasReply (json : J.Node) : Type 0 where
    pub status : HasMember json "status"
    pub code : HasMember status.node "code"
    pub rate : HasRate json
    pub total_js : J.Node
    pub has_total : J.get_object_item json "total_results" ≡ some total_js
    pub results : HasResults json (total_of total_js)

  abbrev pub message_of : Option J.Node → Option String
  message_of none = none
  message_of (some n) = J.get_string_value n

  abbrev pub response_of : {json : J.Node} → HasReply json → Option String → Response J
  response_of h url = record {
    status = record {
      code = J.valueint h.code.node;
      message = message_of (J.get_object_item_case_sensitive h.status.node "message");
    };
    url = url;
    rate_info = rate_of h.rate;
    total_results = total_of h.total_js;
    results = chain (results_of h.results);
  }
