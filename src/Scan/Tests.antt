-- ===== src/Scan/Tests.antt =====
-- A scan from its beginning to its rows, and its theorems at it.
use ocgeo_fdw.Prelude.{All, arith, ℕ, ◌≡◌, refl, true, false, Option, none, some, List, [], ◌∷◌}
use ocgeo_fdw.Prelude.Int.{pos, int32, ◌-ℤ◌}
use ocgeo_fdw.Prelude.Exec.{ok}
use ocgeo_fdw.Prelude.Ctext.{print_int, atoi, strtol, scan_digits, skip_spaces}
use ocgeo_fdw.Server.{Var, text, int4}
use ocgeo_fdw.Samples.{found, tree, whole}
use ocgeo_fdw.Samples.Database.{
  Datum, text_datum, int_datum, users-IsMap, world, q_column, confidence_column, is_berlin,
  is_confident,
}
use ocgeo_fdw.Api.Types.{RateInfo, GeoResult, chain, default_params}
use ocgeo_fdw.Api.Url.{server_request_uri_impl, is_valid_latlng}
use ocgeo_fdw.Api.Reply.{parse_latlng, parse_result, parse_results, parse_response_json}
use ocgeo_fdw.Api.Path.{
  str_to_maybe_int, index_loop, walk, step_into, get_json_field, response_get_int,
}
use ocgeo_fdw.Api.Request.{init, write_callback, do_request, forward}
use ocgeo_fdw.Limiter.{
  Readings, Counters, timeval_diff, max_reqs_per_sec, period_of, wait,
  submit_request_with_rate_limiter,
}
use ocgeo_fdw.Options.{apply_option, apply_options, get_options}
use ocgeo_fdw.Stats.{get_counters}
use ocgeo_fdw.Quals.{
  unnest_clause, swap_operands_as_needed, canonical_op_expr, extract_clause_from_op_expr,
  extract_restrictions,
}
use ocgeo_fdw.Scan.Columns.{
  enter_columns, column_mapping_hash, typed_value, fill_column, fill_columns,
}
use ocgeo_fdw.Scan.{
  Again, ScanState, Plan, opened, apply_qual, apply_quals, collect_quals, scan_params, submit_query,
  send_query, begin_foreign_scan, row_for, iterate_all,
}
use ocgeo_fdw.Scan.Begin.{Begun, begin_foreign_scan-Begun}
use ocgeo_fdw.Scan.Sends.{Sends, begin_foreign_scan-Sends}
use ocgeo_fdw.Samples.Clocks.{exact, exact-IsClock}
use ocgeo_fdw.Samples.Shapes.{service-HasAnswer}
use ocgeo_fdw.Samples.Database.{columns, columns-IsNameMap, table_names}
use ocgeo_fdw.Quals.Total.{is_const, column_first, value_first, compares}
use ocgeo_fdw.Scan.Mapping.{IsDistinct}
use ocgeo_fdw.Scan.Places.{IsFound, column_mapping_hash-IsFound}
use ocgeo_fdw.Scan.Fields.{Shows, iterate_all-Shows}
use ocgeo_fdw.Scan.Cells.{IsPlaced, IsReady, row_of}
use ocgeo_fdw.Scan.Returns.{Works}
use ocgeo_fdw.Scan.Rows.{rows_of}

abbrev clock : Readings
clock = record {
  first = record { sec = 1001; usec = 200_000 };
  wake = exact;
  finish = λ t. t;
  more_rounds = 2;
}

abbrev pub plan : Plan world
plan = record {
  scanrelid = 1;
  fdw_exprs = is_berlin ∷ is_confident ∷ [];
  fdw_private = q_column ∷ confidence_column ∷ [];
  catalogs = record {
    server_id = 1;
    user_id = 10;
    table_options = [];
    server_options = record { defname = "uri"; arg = "https://api" } ∷ [];
    mapping_options = record { defname = "api_key"; arg = "k" } ∷ [];
  };
  stack = record {
    server_id = 0;
    user_id = 0;
    uri = none;
    api_key = none;
    max_reqs_sec = pos 0;
    max_reqs_day = pos 0;
  };
  params = λ i. (int_datum (pos 0), true);
  now = record { sec = 1000; usec = 0 };
  clock = clock;
  sent = [];
}

abbrev result : GeoResult tree
result = record {
  bounds = none;
  geometry = record { lat = pos 52; lng = pos 13 };
  confidence = pos 9;
  internal = found;
}

abbrev info : RateInfo
info = record { limit = pos 2500; remaining = pos 2499; reset = pos 1_700_000_000 }

abbrev pub begun : ScanState world
begun = record {
  qual_key = some "q";
  qual_value = some "Berlin";
  min_confidence = pos 5;
  column_list = q_column ∷ confidence_column ∷ [];
  column_mapping =
      ("confidence", record { column_index = 1; column_type = int4 })
      ∷ ("q", record { column_index = 0; column_type = text })
      ∷ [];
  api = opened (record { api_key = "k"; server = "https://api" });
  response = record {
    status = record { code = pos 200; message = some "OK" };
    url = some "https://api?q=Berlin&key=k&limit=50&min_confidence=5&no_annotations=0";
    rate_info = info;
    total_results = pos 1;
    results = chain (result ∷ []);
  };
  cursor = chain (result ∷ []);
  sent = "Berlin" ∷ [];
}

abbrev pub counters : List (ℕ × Counters whole)
counters =
    (
      10,
      record {
        calls = pos 1;
        success_calls = pos 1;
        total_time = pos 0;
        rate_info = info;
        ts = record { sec = 1001; usec = 200_000 };
        tokens = pos 0;
      },
    )
    ∷ []

pub scan_begun : begin_foreign_scan world plan false none ≡ ok (begun, some counters)
unfolding begin_foreign_scan collect_quals apply_quals apply_qual send_query submit_query
    scan_params extract_restrictions extract_clause_from_op_expr canonical_op_expr
    swap_operands_as_needed unnest_clause forward do_request server_request_uri_impl is_valid_latlng
    write_callback parse_response_json parse_results parse_result parse_latlng default_params
    print_int get_options apply_options apply_option get_counters submit_request_with_rate_limiter
    wait timeval_diff max_reqs_per_sec period_of int32 atoi strtol scan_digits skip_spaces init
    column_mapping_hash enter_columns
scan_begun = refl

-- A second scan at the same time, after the first query, which waits for a second.
abbrev pub later : List (ℕ × Counters whole)
later =
    (
      10,
      record {
        calls = pos 2;
        success_calls = pos 2;
        total_time = pos 0;
        rate_info = info;
        ts = record { sec = 1002; usec = 200_000 };
        tokens = pos 0;
      },
    )
    ∷ []

abbrev pub later_plan : Plan world
later_plan = record plan { sent = "Berlin" ∷ [] }

pub later-Again : Again world plan later_plan
later-Again = record {
  scanrelid = refl;
  fdw_exprs = refl;
  fdw_private = refl;
  catalogs = refl;
  stack = refl;
}

abbrev pub begun_later : ScanState world
begun_later = record begun { sent = "Berlin" ∷ "Berlin" ∷ [] }

pub scan_begun_later :
    begin_foreign_scan world later_plan false (some counters) ≡ ok (begun_later, some later)
unfolding begin_foreign_scan collect_quals apply_quals apply_qual send_query submit_query
    scan_params extract_restrictions extract_clause_from_op_expr canonical_op_expr
    swap_operands_as_needed unnest_clause forward do_request server_request_uri_impl is_valid_latlng
    write_callback parse_response_json parse_results parse_result parse_latlng default_params
    print_int get_options apply_options apply_option get_counters submit_request_with_rate_limiter
    wait timeval_diff max_reqs_per_sec period_of int32 atoi strtol scan_digits skip_spaces init
    column_mapping_hash enter_columns
scan_begun_later = refl

begin_foreign_scan-Begun_example : Begun world plan false none begun (some counters)
begin_foreign_scan-Begun_example = begin_foreign_scan-Begun world plan false none scan_begun

-- The query of the scan and the confidence of the result; the third column is not asked for.
rows_of-begun :
    rows_of world 3 begun (result ∷ [])
    ≡ ok ((some (text_datum "Berlin") ∷ some (int_datum (pos 9)) ∷ none ∷ []) ∷ [])
unfolding rows_of row_for fill_columns fill_column typed_value response_get_int get_json_field walk
    step_into str_to_maybe_int index_loop
rows_of-begun = refl

begin_foreign_scan-Sends_example : Sends world plan none "Berlin" begun (some counters)
begin_foreign_scan-Sends_example =
    begin_foreign_scan-Sends world users-IsMap plan none "Berlin" scan_begun refl

columns-IsPlaced : All (IsPlaced 3) (q_column ∷ confidence_column ∷ [])
columns-IsPlaced = (
  record { place = 0; attno = refl; within = omega arith },
  (record { place = 1; attno = refl; within = omega arith }, tt),
)

columns-IsDistinct : IsDistinct columns table_names (q_column ∷ confidence_column ∷ [])
columns-IsDistinct = ((refl, tt), (tt, tt))

column_mapping_hash-IsFound_example :
    All
      (IsFound world (column_mapping_hash columns table_names (q_column ∷ confidence_column ∷ [])))
      (q_column ∷ confidence_column ∷ [])
column_mapping_hash-IsFound_example =
    column_mapping_hash-IsFound world columns-IsNameMap 3 (q_column ∷ confidence_column ∷ [])
      (omega arith) columns-IsPlaced columns-IsDistinct

begun-IsReady : IsReady world 3 "Berlin" begun
unfolding column_mapping_hash enter_columns ◌-ℤ◌
begun-IsReady = record {
  small = omega arith;
  key = refl;
  value = refl;
  mapping = refl;
  placed = columns-IsPlaced;
  distinct = columns-IsDistinct;
}

iterate_all-Shows_example :
    (show : GeoResult tree → Var → Option Datum) × ((r : GeoResult tree) (c : Var)
      → Shows world "Berlin" r c (show r c))
    × (iterate_all world 2 3 begun
        ≡ ok (row_of 3 (q_column ∷ confidence_column ∷ []) (show result) ∷ []))
iterate_all-Shows_example =
    iterate_all-Shows world columns-IsNameMap 3 "Berlin" begun (result ∷ []) begun-IsReady refl

pub plan-Works : Works world plan none
unfolding get_options apply_options apply_option atoi strtol scan_digits skip_spaces get_counters
    max_reqs_per_sec unnest_clause
plan-Works = record {
  simple = (
    compares _ _ _ refl (column_first q_column 98 refl (is_const false (text_datum "Berlin")) refl),
    (
      compares _ _ _ refl
          (value_first confidence_column 525 (is_const false (int_datum (pos 5))) refl refl),
      tt,
    ),
  );
  limit = omega arith;
  bucket = record { left = 1; tokens = refl; within = omega arith; canonical = omega arith };
  timely = record {
    clock_runs = exact-IsClock;
    rounds = omega arith;
    first_canonical = omega arith;
    first_follows = omega arith;
  };
  service = service-HasAnswer;
}
