-- ===== src/Scan/Session/Tests.antt =====
-- Two scans of a user, the first ended after the second has begun, and the theorems on them.
use ocgeo_fdw.Prelude.{ℕ, ◌⊎◌, ◌+◌, ◌*◌, ◌≤◌, ◌≡◌, refl, false, none, some, [], ◌∷◌, arith}
use ocgeo_fdw.Prelude.Int.{pos}
use ocgeo_fdw.Samples.{whole, texts}
use ocgeo_fdw.Samples.Database.{users-IsMap, world}
use ocgeo_fdw.Api.Request.{Api}
use ocgeo_fdw.Limiter.{Counters, max_reqs_per_sec, period_of}
use ocgeo_fdw.Limiter.Clock.{micros}
use ocgeo_fdw.Limiter.Budget.{IsBucket, IsLimit, IsTimely}
use ocgeo_fdw.Prelude.Exec.{ok}
use ocgeo_fdw.Stats.{new_counters, get_counters}
use ocgeo_fdw.Scan.{rescan_foreign_scan, options_of, ApiPointer, close, end_foreign_scan}
use ocgeo_fdw.Samples.Clocks.{exact-IsClock}
use ocgeo_fdw.Options.{get_options, apply_options, apply_option}
use ocgeo_fdw.Scan.Tests.{
  later-Again, later_plan, begun_later, plan, begun, counters, scan_begun, later, scan_begun_later,
}
use ocgeo_fdw.Scan.Session.{Backend, Regular, begins, rescans, Runs, idle, more}
use ocgeo_fdw.Scan.Session.Clients.{Runs-ends}
use ocgeo_fdw.Scan.Session.Counted.{IsCounted, Runs-IsCounted}
use ocgeo_fdw.Scan.Session.Granted.{IsGranted, Runs-Granted}
use ocgeo_fdw.Scan.Session.Rate.{Runs-within_rate, Runs-from_start}

abbrev user_counters : Counters whole
user_counters = record {
  calls = pos 1;
  success_calls = pos 1;
  total_time = pos 0;
  rate_info = record { limit = pos 2500; remaining = pos 2499; reset = pos 1_700_000_000 };
  ts = record { sec = 1001; usec = 200_000 };
  tokens = pos 0;
}

plan-IsTimely : IsTimely plan.clock user_counters
plan-IsTimely = record {
  clock_runs = exact-IsClock;
  rounds = omega arith;
  first_canonical = omega arith;
  first_follows = omega arith;
}

plan-IsTimely_new : IsTimely plan.clock (new_counters {F = whole} (options_of world plan) plan.now)
plan-IsTimely_new = record {
  clock_runs = exact-IsClock;
  rounds = omega arith;
  first_canonical = omega arith;
  first_follows = omega arith;
}

first-Regular : Regular world 10 (pos 1) plan 999_000_000 none
unfolding get_options apply_options apply_option get_counters
first-Regular = record {
  limit = λ e. refl;
  canonical = λ e. omega arith;
  after_start = λ e. omega arith;
  timely = λ e. plan-IsTimely_new;
}

later-Regular : Regular world 10 (pos 1) later_plan 999_000_000 (some counters)
unfolding get_options apply_options apply_option get_counters
later-Regular = record {
  limit = λ e. refl;
  canonical = λ e. omega arith;
  after_start = λ e. omega arith;
  timely = λ e. plan-IsTimely;
}

one-IsLimit : IsLimit (pos 1)
unfolding max_reqs_per_sec
one-IsLimit = omega arith

counters-IsBucket : IsBucket (pos 1) user_counters
unfolding max_reqs_per_sec
counters-IsBucket = record {
  left = 0;
  tokens = refl;
  within = omega arith;
  canonical = omega arith;
}

-- The user 10 begins two scans.
abbrev two_scans : Backend world
two_scans = record {
  started = 999_000_000;
  hash = some later;
  scans = (later_plan, begun_later) ∷ (plan, begun) ∷ [];
  sent = "Berlin" ∷ "Berlin" ∷ [];
}

one_run :
    Runs world 10
      (pos 1)
      (record { started = 999_000_000; hash = some counters; scans = []; sent = "Berlin" ∷ [] })
      1
      (record {
        started = 999_000_000;
        hash = some later;
        scans = (later_plan, begun_later) ∷ [];
        sent = "Berlin" ∷ "Berlin" ∷ [];
      })
unfolding get_options apply_options apply_option
one_run =
    more idle (begins later_plan false begun_later (some later) refl later-Regular scan_begun_later)

two-Runs :
    Runs world 10
      (pos 1)
      (record { started = 999_000_000; hash = none; scans = []; sent = [] })
      2
      two_scans
unfolding get_options apply_options apply_option
two-Runs =
    more (more idle (begins plan false begun (some counters) refl first-Regular scan_begun))
      (begins later_plan false begun_later (some later) refl later-Regular scan_begun_later)

-- The user begins a scan and rescans it after the first query.
rescan-Runs :
    Runs world 10
      (pos 1)
      (record { started = 999_000_000; hash = none; scans = []; sent = [] })
      2
      (record {
        started = 999_000_000;
        hash = some later;
        scans = (later_plan, begun_later) ∷ [];
        sent = "Berlin" ∷ "Berlin" ∷ [];
      })
unfolding get_options apply_options apply_option rescan_foreign_scan end_foreign_scan
rescan-Runs =
    more (more idle (begins plan false begun (some counters) refl first-Regular scan_begun)) (
      rescans plan later_plan begun begun_later (some later) [] [] refl later-Again refl
        later-Regular scan_begun_later)

Runs-ends_example :
    (api : ApiPointer (Api texts)) × (close world begun.api ≡ ok api)
    × (end_foreign_scan world begun ≡ ok (record begun { api = api }))
Runs-ends_example = Runs-ends world plan begun ((later_plan, begun_later) ∷ []) [] two-Runs refl

Runs-within_rate_example :
    (c' : Counters whole) × (bucket' : IsBucket (pos 1) c') × (world.htab.find later 10 ≡ some c')
    × (1 * (period_of (pos 1) * 1000) + bucket'.left * (period_of (pos 1) * 1000) + 1_001_200_000
        ≤ counters-IsBucket.left * (period_of (pos 1) * 1000) + micros c'.ts + 1 * 999)
Runs-within_rate_example =
    Runs-within_rate world users-IsMap 10 (pos 1) one-IsLimit user_counters counters-IsBucket refl
      one_run

Runs-IsCounted_example :
    (c' : Counters whole) × (world.htab.find later 10 ≡ some c') × IsCounted user_counters 1 c'
Runs-IsCounted_example =
    Runs-IsCounted world users-IsMap 10 (pos 1) user_counters (omega arith) (omega arith) refl
      one_run

Runs-from_start_example :
    ((◌≡◌ {A = ℕ} 2 0) × (world.htab.find later 10 ≡ none))
    ⊎ ((c' : Counters whole) × (bucket' : IsBucket (pos 1) c') × (world.htab.find later 10
          ≡ some c')
        × (2 * (period_of (pos 1) * 1000) + bucket'.left * (period_of (pos 1) * 1000) + 999_000_000
            ≤ 1 * (period_of (pos 1) * 1000) + micros c'.ts + 2 * 999))
Runs-from_start_example =
    Runs-from_start world users-IsMap 10 1 (omega arith) one-IsLimit refl two-Runs

Runs-Granted_example :
    ((◌≡◌ {A = ℕ} 2 0) × (world.htab.find later 10 ≡ none))
    ⊎ ((time : ℕ) × (c' : Counters whole) × (bucket' : IsBucket (pos 1) c') × (world.htab.find later
            10
          ≡ some c')
        × (999_000_000 ≤ time)
        × IsGranted 1 time 2 c' bucket')
Runs-Granted_example =
    Runs-Granted world users-IsMap 10 1 (omega arith) one-IsLimit refl rescan-Runs
