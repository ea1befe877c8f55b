-- ===== src/Scan/Memory/Tests.antt =====
-- A scan that is rescanned and ends, and what is left of it.
use ocgeo_fdw.Prelude.{ℕ, ◌+◌, ◌≡◌, false, none, some, List, [], ◌∷◌, ◌++◌, Bool}
use ocgeo_fdw.Samples.Database.{world}
use ocgeo_fdw.Api.Memory.{Block, Event, settle}
use ocgeo_fdw.Scan.{rescan_foreign_scan, end_foreign_scan}
use ocgeo_fdw.Scan.Tests.{
  later-Again, later_plan, begun_later, plan, begun, scan_begun, scan_begun_later,
}
use ocgeo_fdw.Scan.Memory as Memory
use ocgeo_fdw.Scan.Memory.{begin_events, end_events, Scanning, rescanned, Beginning, AreAnswers}
use ocgeo_fdw.Scan.Memory.Released.{responses_of, documents_held, scan_leaves}

abbrev events : List Event
events =
    begin_events world plan false
    ++ end_events world begun.api
    ++ begin_events world later_plan false

abbrev beginnings : List (Beginning world)
beginnings =
    record { plan = later_plan; explain_only = false; state = begun_later }
    ∷ record { plan = plan; explain_only = false; state = begun }
    ∷ []

-- The scan and its rescan after the first query.
twice : Scanning world later_plan events beginnings begun_later
unfolding rescan_foreign_scan end_foreign_scan
twice = rescanned _ (Memory.begun false none scan_begun) later-Again scan_begun_later

scan_leaves_example :
    (answers : List Bool) × AreAnswers world beginnings answers
    × ((b : Block) (n : ℕ)
        → settle b (events ++ end_events world begun_later.api) n
          ≡ some (responses_of world beginnings b + (documents_held world answers b + n)))
scan_leaves_example = scan_leaves world twice
