-- ===== src/Stats/Tests.antt =====
-- Runs of the report and of the look-up of counters, and their theorems at them.
use ocgeo_fdw.Prelude.{ℕ, ◌≡◌, ◌≢◌, refl, inl, inr, none, some, List, [], ◌∷◌}
use ocgeo_fdw.Prelude.Int.{ℤ, pos}
use ocgeo_fdw.Prelude.Exec.{ok, crash, pfree_null}
use ocgeo_fdw.Samples.{whole}
use ocgeo_fdw.Samples.Database.{users, users-IsMap}
use ocgeo_fdw.Limiter.{Timeval, Counters}
use ocgeo_fdw.Options.{TableOptions}
use ocgeo_fdw.Stats.{Tm, row_of, new_counters, get_counters, ocgeo_stats}
use ocgeo_fdw.Stats.Users.{IsNew, get_counters-IsNew}
use ocgeo_fdw.Stats.Report.{ocgeo_stats_rows, ocgeo_stats_crash}

abbrev now : Timeval
now = record { sec = 1000; usec = 0 }

abbrev options : TableOptions
options = record {
  server_id = 1;
  user_id = 10;
  uri = none;
  api_key = none;
  max_reqs_sec = pos 5;
  max_reqs_day = pos 2500;
}

abbrev known : Counters whole
known = record {
  calls = pos 3;
  success_calls = pos 2;
  total_time = pos 1500;
  rate_info = record { limit = pos 2500; remaining = pos 2498; reset = pos 1_700_000_000 };
  ts = now;
  tokens = pos 1;
}

abbrev unknown : Counters whole
unknown = new_counters options now

-- The user 10 has no counters yet.
abbrev others : List (ℕ × Counters whole)
others = (7, known) ∷ []

abbrev gmtime : ℤ → Tm
gmtime t = record {
  year = pos 123;
  mon = pos 10;
  mday = pos 14;
  hour = pos 22;
  min = pos 13;
  sec = pos 20;
}

get_counters-IsNew_example :
    let (t, c) = get_counters users (some others) options now in
    (users.find t 10 ≡ some c)
    × (users.find others 10 ≡ none → IsNew options now c)
    × ((old : Counters whole) → users.find others 10 ≡ some old → c ≡ old)
    × ((k : ℕ) → 10 ≢ k → users.find t k ≡ users.find others k)
get_counters-IsNew_example = get_counters-IsNew users-IsMap (some others) options now

ocgeo_stats_rows_example :
    (ocgeo_stats users gmtime (some others) ≡ ok (row_of gmtime known ∷ []))
    × (ocgeo_stats users gmtime none ≡ ok [])
ocgeo_stats_rows_example = ocgeo_stats_rows users gmtime others (refl, tt)

ocgeo_stats_crash_example :
    ocgeo_stats users gmtime (some ((7, known) ∷ (10, unknown) ∷ [])) ≡ crash pfree_null
ocgeo_stats_crash_example =
    ocgeo_stats_crash users gmtime ((7, known) ∷ (10, unknown) ∷ []) (inr (inl refl))
