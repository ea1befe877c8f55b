-- ===== src/Api/Memory/Tests.antt =====
-- A reverse request and the clean-up of its response, and what is held after them.
use ocgeo_fdw.Prelude.{◌+◌, ◌≡◌, refl, true, none, some, [], ◌∷◌, ◌++◌}
use ocgeo_fdw.Prelude.Int.{pos}
use ocgeo_fdw.Prelude.Exec.{ok}
use ocgeo_fdw.Prelude.Ctext.{print_int}
use ocgeo_fdw.Samples.{tree, texts, found, service}
use ocgeo_fdw.Api.Types.{GeoResult, chain, Response, zero_response, default_params}
use ocgeo_fdw.Api.Url.{server_request_uri_impl, is_valid_latlng}
use ocgeo_fdw.Api.Reply.{
  parse_latlng, parse_result, parse_results, parse_response_json, response_cleanup,
}
use ocgeo_fdw.Api.Request.{Api, write_callback, do_request, reverse}
use ocgeo_fdw.Api.Memory.{
  document, results, settle, bounds_acquired, bounds_events, cleanup_events, do_request_events,
  reverse_events,
}
use ocgeo_fdw.Api.Memory.Settled.{one}
use ocgeo_fdw.Api.Memory.Released.{reverse_then_cleanup}

abbrev api : Api texts
api = record { api_key = "k"; server = "https://api" }

abbrev result : GeoResult tree
result = record {
  bounds = none;
  geometry = record { lat = pos 52; lng = pos 13 };
  confidence = pos 9;
  internal = found;
}

abbrev answer : Response tree
answer = record {
  status = record { code = pos 200; message = some "OK" };
  url = some "https://api?q=0.00000000,0.00000000&key=k&no_annotations=0";
  rate_info = record { limit = pos 2500; remaining = pos 2499; reset = pos 1_700_000_000 };
  total_results = pos 1;
  results = chain (result ∷ []);
}

reversed :
    reverse tree texts service api (pos 52) (pos 13) none (zero_response tree) ≡ ok (true, answer)
unfolding reverse do_request server_request_uri_impl is_valid_latlng write_callback
    parse_response_json parse_results parse_result parse_latlng default_params print_int
reversed = refl

cleaned :
    response_cleanup tree answer
    ≡ ok (record answer { url = none; total_results = pos 0; results = chain [] })
unfolding response_cleanup
cleaned = refl

-- The document is still there, and nothing else is.
reverse_then_cleanup_example :
    settle document
      (reverse_events tree texts service api (pos 52) (pos 13) none (zero_response tree)
        ++ cleanup_events tree answer)
      3
    ≡ some (one document document + 3)
reverse_then_cleanup_example =
    reverse_then_cleanup tree texts service api (pos 52) (pos 13) none document 3 reversed cleaned

nothing_over :
    settle results
      (reverse_events tree texts service api (pos 52) (pos 13) none (zero_response tree)
        ++ cleanup_events tree answer)
      0
    ≡ some 0
unfolding reverse_events do_request_events settle bounds_acquired bounds_events
    server_request_uri_impl is_valid_latlng write_callback default_params print_int
nothing_over = refl
