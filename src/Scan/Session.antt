-- ===== src/Scan/Session.antt =====
-- A backend that runs scans, of any users and interleaved in any order: the callbacks that the
-- executor makes, as steps on the table of counters and the scans that are open.
pub mod Clients
mod Users
pub mod Counted
pub mod Rate
pub mod Granted
mod Tests
use ocgeo_fdw.Prelude.{
  String, length, ℕ, ◌+◌, ◌-◌, ◌≤◌, ◌≡◌, ◌==◌, Bool, true, false, Option, none, some, List, [], ◌∷◌,
  ◌++◌, if◌then◌else◌,
}
use ocgeo_fdw.Prelude.Int.{ℤ}
use ocgeo_fdw.Prelude.Exec.{ok}
use ocgeo_fdw.Limiter.{Counters}
use ocgeo_fdw.Limiter.Clock.{micros, IsCanonical}
use ocgeo_fdw.Limiter.Budget.{IsTimely}
use ocgeo_fdw.Stats.{get_counters}
use ocgeo_fdw.World.{World}
use ocgeo_fdw.Scan.{
  Again, ScanState, Plan, options_of, begin_foreign_scan, iterate_foreign_scan, end_foreign_scan,
  rescan_foreign_scan,
}

module _ (W : World) where
  open W use {server as P, htab as H}

  -- The time at which the backend started, in microseconds, its counters, its open
  -- scans, and the queries that the service has been sent, the latest first.
  pub record Backend : Type 0 where
    pub started : ℕ
    pub hash : Option H.Table
    pub scans : List (Plan W × ScanState W)
    pub sent : List String

  -- The requests of a user that the beginning of a scan has sent: those by which the queries that
  -- the service has been sent have grown.
  abbrev pub requests_of : ℕ → Plan W → ScanState W → ℕ
  requests_of u plan s =
      if (options_of W plan).user_id == u then length s.sent - length plan.sent else 0

  -- The user `u` keeps the limit `m`, and the clock runs on from the start of the backend and from
  -- the user's last request, which was at most 2 ^ 40 microseconds (12 days) ago.
  pub record Regular (u : ℕ) (m : ℤ) (plan : Plan W) (started : ℕ) (hash : Option H.Table)
      : Type 0 where
    pub limit : (options_of W plan).user_id ≡ u → (options_of W plan).max_reqs_sec ≡ m
    pub canonical : (options_of W plan).user_id ≡ u → IsCanonical plan.now
    pub after_start : (options_of W plan).user_id ≡ u → started ≤ micros plan.now
    pub timely :
        (options_of W plan).user_id ≡ u
        → IsTimely plan.clock (get_counters H hash (options_of W plan) plan.now).1

  -- One callback, with the number of requests of the user `u` that it sends.
  pub data Step (u : ℕ) (m : ℤ) (b : Backend) : ℕ → Backend → Type 0 where
    begins :
        (plan : Plan W) (explain_only : Bool) (s : ScanState W) (hash : Option H.Table)
        → plan.sent ≡ b.sent
        → Regular u m plan b.started b.hash
        → begin_foreign_scan W plan explain_only b.hash ≡ ok (s, hash)
        → Step u m b
            (requests_of u plan s)
            (record b { hash = hash; scans = (plan, s) ∷ b.scans; sent = s.sent })
    iterates :
        (natts : ℕ) (plan : Plan W) (s s' : ScanState W) (row : Option (List (Option P.Datum)))
        (before after : List (Plan W × ScanState W))
        → b.scans ≡ before ++ (plan, s) ∷ after
        → iterate_foreign_scan W natts s ≡ ok (row, s')
        → Step u m b 0 (record b { scans = before ++ (plan, s') ∷ after })
    rescans :
        (plan plan' : Plan W) (s s' : ScanState W) (hash : Option H.Table)
        (before after : List (Plan W × ScanState W))
        → b.scans ≡ before ++ (plan, s) ∷ after
        → Again W plan plan'
        → plan'.sent ≡ b.sent
        → Regular u m plan' b.started b.hash
        → rescan_foreign_scan W plan' s b.hash ≡ ok (s', hash)
        → Step u m b
            (requests_of u plan' s')
            (record b { hash = hash; scans = before ++ (plan', s') ∷ after; sent = s'.sent })
    ends :
        (plan : Plan W) (s s' : ScanState W) (before after : List (Plan W × ScanState W))
        → b.scans ≡ before ++ (plan, s) ∷ after
        → end_foreign_scan W s ≡ ok s'
        → Step u m b 0 (record b { scans = before ++ after })

  -- Any number of callbacks, with the requests of the user that they send together.
  pub data Runs (u : ℕ) (m : ℤ) (b : Backend) : ℕ → Backend → Type 0 where
    idle : Runs u m b 0 b
    more :
        {n k : ℕ} {b' b'' : Backend} → Runs u m b n b' → Step u m b' k b'' → Runs u m b (n + k) b''
