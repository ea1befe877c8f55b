-- ===== src/Api/Tests.antt =====
-- Runs of the client, and its theorems at them.
use ocgeo_fdw.Prelude.{All, ◌≡◌, ◌≢◌, refl, inl, true, String, none, some, [], ◌∷◌, arith}
use ocgeo_fdw.Prelude.Int.{pos, ◌+ℤ◌, ◌*ℤ◌, int32}
use ocgeo_fdw.Prelude.Exec.{ok, crash, buffer_overflow, uninitialised_read, ◌>>=◌}
use ocgeo_fdw.Prelude.Ctext.{◌<>◌, print_int}
use ocgeo_fdw.Samples.{
  whole, Items, obj, field, end, str, num, arr, item, nil, found, document, tree, texts,
  texts-AppendsText, service,
}
use ocgeo_fdw.Api.Types.{
  Status, RateInfo, GeoResult, chain, Response, zero_response, Params, default_params,
}
use ocgeo_fdw.Api.Url.{server_request_uri_impl, is_valid_latlng}
use ocgeo_fdw.Api.Url.Fields.{query_fields, render, text_of-server_request_uri_impl}
use ocgeo_fdw.Api.Reply.{
  parse_latlng, parse_result, parse_results, parse_response_json, response_cleanup,
}
use ocgeo_fdw.Api.Reply.Sound.{IsReply, parse_response_json-IsReply}
use ocgeo_fdw.Api.Reply.Faults.{HasHeader, parse_response_json_overflow, parse_response_json_empty}
use ocgeo_fdw.Api.Path.{
  str_to_maybe_int, index_loop, walk, step_into, get_json_field, response_get_str,
}
use ocgeo_fdw.Api.Path.Fields.{IsSegment, an_index, a_name, targets, get_json_field-targets}
use ocgeo_fdw.Api.Path.Index.{two_digits}
use ocgeo_fdw.Api.Request.{write_callback, do_request}
use ocgeo_fdw.Samples.Shapes.{reply, reply-HasReply, service-HasAnswer}
use ocgeo_fdw.Api.Reply.Shape.{response_of}
use ocgeo_fdw.Api.Reply.Total.{parse_response_json-response_of}
use ocgeo_fdw.Api.Request.Total.{answer_of, do_request-answer_of}
use ocgeo_fdw.Api.Request.Outcome.{Ended, do_request-Ended}

abbrev params : Params whole
params = record (default_params whole) {
  language = some "de";
  limit = pos 50;
  proximity = record { lat = pos 52; lng = pos 13 };
}

abbrev url : String
url =
    "https://api?q=Berlin&key=k&language=de&limit=50&no_annotations=0&proximity=0.00000000,0.00000000"

text_of-server_request_uri_impl_example :
    server_request_uri_impl texts service.easy_escape "k" "https://api" "Berlin" true params
    ≡ ("https://api" <> "?q=" <> "Berlin" <> "&key=" <> "k") <> render (query_fields true params)
text_of-server_request_uri_impl_example =
    text_of-server_request_uri_impl texts-AppendsText service.easy_escape "k" "https://api" "Berlin"
      true params

abbrev first_result : GeoResult tree
first_result = record {
  bounds = none;
  geometry = record { lat = pos 52; lng = pos 13 };
  confidence = pos 9;
  internal = found;
}

abbrev info : RateInfo
info = record { limit = pos 2500; remaining = pos 2499; reset = pos 1_700_000_000 }

abbrev status : Status
status = record { code = pos 200; message = some "OK" }

abbrev before : Response tree
before = record (zero_response tree) { url = some url }

abbrev answer : Response tree
answer = record {
  status = status;
  url = some url;
  rate_info = info;
  total_results = pos 1;
  results = chain (first_result ∷ []);
}

reply_read : parse_response_json tree (document (item found nil)) before ≡ ok answer
unfolding parse_response_json parse_results parse_result parse_latlng
reply_read = refl

parse_response_json-IsReply_example : IsReply (document (item found nil)) before answer
parse_response_json-IsReply_example =
    parse_response_json-IsReply (document (item found nil)) before reply_read

abbrev response : Response tree
response = zero_response tree

request_answered :
    do_request tree texts service true "Berlin" "k" "https://api" (some params) response
    ≡ ok (true, answer)
unfolding do_request server_request_uri_impl is_valid_latlng write_callback parse_response_json
    parse_results parse_result parse_latlng default_params print_int
request_answered = refl

do_request-Ended_example :
    Ended tree texts-AppendsText service before ("{.." ∷ ".}" ∷ [], true) true answer
unfolding server_request_uri_impl is_valid_latlng default_params print_int
do_request-Ended_example =
    do_request-Ended tree texts-AppendsText service true "Berlin" "k" "https://api" (some params)
      response request_answered

-- Two results under a total of one, and none.
header : (results : Items) → HasHeader tree (document results) status info (arr results) (pos 1)
header results = record {
  status_js = obj (field "code" (num (pos 200)) (field "message" (str "OK") end));
  total_js = num (pos 1);
  has_status = refl;
  status_read = refl;
  rate_read = refl;
  has_total = refl;
  total_read = refl;
  positive = refl;
  has_results = refl;
}

found_parses : (r : GeoResult tree) × (parse_result tree found ≡ ok r)
unfolding parse_result parse_latlng
found_parses = (first_result, refl)

parse_response_json_overflow_example :
    parse_response_json tree (document (item found (item found nil))) response
    ≡ crash buffer_overflow
parse_response_json_overflow_example =
    parse_response_json_overflow tree (document (item found (item found nil))) status info
      (arr (item found (item found nil))) (pos 1) response (header (item found (item found nil)))
      (found_parses, (found_parses, tt)) (omega arith)

parse_response_json_empty_example :
    (parse_response_json tree (document nil) response >>= response_cleanup tree)
    ≡ crash uninitialised_read
parse_response_json_empty_example =
    parse_response_json_empty tree (document nil) status info (arr nil) (pos 1) response
      (header nil) refl

second_line : response_get_str tree texts first_result "lines.1" ≡ some "two"
unfolding response_get_str get_json_field walk step_into str_to_maybe_int index_loop int32 ◌+ℤ◌ ◌*ℤ◌
second_line = refl

lines_1-IsSegment : All IsSegment ("lines" ∷ "1" ∷ [])
lines_1-IsSegment = (a_name (inl refl), (an_index (omega arith, tt) (omega arith), tt))

get_json_field-targets_example :
    get_json_field tree texts found "lines.1"
    ≡ targets tree (some found) ("lines" ∷ "1" ∷ []) lines_1-IsSegment
get_json_field-targets_example =
    get_json_field-targets tree texts found "lines.1" refl lines_1-IsSegment

two_digits_example : (str_to_maybe_int "12" ≡ pos 13) × (str_to_maybe_int "12" ≢ pos 12)
two_digits_example = two_digits "12" 1 2 refl (omega arith) (omega arith) (omega arith)

parse_response_json-response_of_example :
    parse_response_json tree reply before ≡ ok (response_of tree reply-HasReply (some url))
parse_response_json-response_of_example =
    parse_response_json-response_of tree reply reply-HasReply before

do_request-answer_of_example :
    do_request tree texts service true "Berlin" "k" "https://api" (some params) response
    ≡ ok (answer_of tree (service-HasAnswer url "") before)
unfolding server_request_uri_impl is_valid_latlng default_params print_int
do_request-answer_of_example =
    do_request-answer_of tree texts-AppendsText service true "Berlin" "k" "https://api"
      (some params) response (service-HasAnswer url "")
