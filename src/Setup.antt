-- ===== src/Setup.antt =====
-- Loading the module and its table of callbacks (_PG_init, exitHook and ocgeo_fdw_handler in
-- ocgeo_fdw.c).
pub mod Query
mod Tests
use ocgeo_fdw.Prelude.{ℕ, ◌+◌, ◌-◌, ◌≡◌, Bool, String, Option, List, [], ◌∷◌, ◌++◌, map, ap, arith}
use ocgeo_fdw.Prelude.Exec.{Exec}
use ocgeo_fdw.Server.{TypeId, Node}
use ocgeo_fdw.World.{World}
use ocgeo_fdw.Options.{TableOptions}
use ocgeo_fdw.Planner.{
  RestrictInfo, RelOptInfo, PlannerInfo, PlanState, ForeignPath, ForeignScan, get_foreign_rel_size,
  get_foreign_paths, get_foreign_plan,
}
use ocgeo_fdw.Scan.{
  ScanState, Plan, begin_foreign_scan, iterate_foreign_scan, rescan_foreign_scan, end_foreign_scan,
  explain_foreign_scan,
}

-- What runs when the process exits: the hook of this module, or that of another one.
pub data ExitHook : Type 0 where
  exit_hook : ExitHook
  other_hook : ℕ → ExitHook

-- How often the process has set up libcurl and not cleaned it up, and what was registered with
-- on_proc_exit, the latest first.
pub record Process : Type 0 where
  pub curl_users : ℕ
  pub exit_hooks : List ExitHook

unfoldable pub pg_init : Process → Process
pg_init p = record { curl_users = p.curl_users + 1; exit_hooks = exit_hook ∷ p.exit_hooks }

-- The hook of this module calls curl_global_cleanup; the hooks of others leave libcurl alone.
abbrev pub run_hook : ExitHook → ℕ → ℕ
run_hook exit_hook curl_users = curl_users - 1
run_hook (other_hook n) curl_users = curl_users

unfoldable pub run_hooks : List ExitHook → ℕ → ℕ
run_hooks [] curl_users = curl_users
run_hooks (h ∷ hs) curl_users = run_hooks hs (run_hook h curl_users)

-- A process that has loaded the module leaves libcurl at its exit as it would have without it,
-- whatever hooks of others are registered before that and after it.
pg_init-run_hooks :
    (later : List ℕ) (p : Process)
    → run_hooks (map other_hook later ++ (pg_init p).exit_hooks) (pg_init p).curl_users
      ≡ run_hooks p.exit_hooks p.curl_users
unfolding pg_init run_hooks
pg_init-run_hooks [] p = ap (run_hooks p.exit_hooks) (omega arith)
pg_init-run_hooks (n ∷ later) p = pg_init-run_hooks later p

module _ (W : World) where
  open W use {server as P, htab as H}

  -- The table of callbacks.
  pub record FdwRoutine : Type 0 where
    pub get_foreign_rel_size : Exec TableOptions → RelOptInfo P → Exec (PlanState P × RelOptInfo P)
    pub begin_foreign_scan : Plan W → Bool → Option H.Table → Exec (ScanState W × Option H.Table)
    pub iterate_foreign_scan : ℕ → ScanState W → Exec (Option (List (Option P.Datum)) × ScanState W)
    pub end_foreign_scan : ScanState W → Exec (ScanState W)
    pub get_foreign_plan : RelOptInfo P → List (RestrictInfo P) → Exec (ForeignScan P)
    pub get_foreign_paths :
        PlannerInfo P → RelOptInfo P → List (String × Bool) → PlanState P → List (ForeignPath P)
    pub explain_foreign_scan : ScanState W → String
    pub re_scan_foreign_scan :
        Plan W → ScanState W → Option H.Table → Exec (ScanState W × Option H.Table)

  unfoldable pub fdw_handler :
      (TypeId → ℕ) → (List (RestrictInfo P) → List (Node P.Datum)) → FdwRoutine
  fdw_handler type_oid extract_actual_clauses = record {
    get_foreign_rel_size = get_foreign_rel_size P W.column_names;
    begin_foreign_scan = begin_foreign_scan W;
    iterate_foreign_scan = iterate_foreign_scan W;
    end_foreign_scan = end_foreign_scan W;
    get_foreign_plan = get_foreign_plan P W.column_names type_oid extract_actual_clauses;
    get_foreign_paths = get_foreign_paths P;
    explain_foreign_scan = explain_foreign_scan W;
    re_scan_foreign_scan = rescan_foreign_scan W;
  }
