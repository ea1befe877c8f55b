-- ===== src/Scan/Session/Clients.antt =====
-- The clients of the scans that are open.
use ocgeo_fdw.Prelude.{ℕ, ◌≡◌, refl, sym, ap, ◌∙◌, String, Option, List, [], ◌∷◌, ◌++◌, All, false}
use ocgeo_fdw.Prelude.Int.{ℤ}
use ocgeo_fdw.Prelude.Exec.{ok, >>=-eq-ok, ok-injective}
use ocgeo_fdw.Api.Request.{Api}
use ocgeo_fdw.Api.Types.{Results, chain, uninitialised}
use ocgeo_fdw.World.{World}
use ocgeo_fdw.Scan.{
  ApiPointer, close, ScanState, Plan, iterate_foreign_scan, row_for, end_foreign_scan,
  rescan_foreign_scan,
}
use ocgeo_fdw.Scan.Life.{close-Owns, Owns, no_client, one_client, begin_foreign_scan-Owns}
use ocgeo_fdw.Scan.Session.{Backend, Step, begins, iterates, rescans, ends, Runs, idle, more}

module _ {ℓ κ} {A : Type ℓ} (P : A → Type κ) where
  All-split : (xs : List A) (y : A) (ys : List A) → All P (xs ++ y ∷ ys) → All P xs × P y × All P ys
  All-split [] y ys h = (tt, h.0, h.1)
  All-split (x ∷ xs) y ys h = let (hx, hy, hys) = All-split xs y ys h.1 in ((h.0, hx), hy, hys)

  All-append : (xs ys : List A) → All P xs → All P ys → All P (xs ++ ys)
  All-append [] ys h h' = h'
  All-append (x ∷ xs) ys h h' = (h.0, All-append xs ys h.1 h')

module _ (W : World) where
  -- Every open scan has no client or the one of its options, which is open.
  abbrev pub HasClients : Backend W → Type 0
  HasClients b = All (λ (p : Plan W × ScanState W). Owns W p.0 p.1) b.scans

  iterate_at_api :
      (natts : ℕ) (s : ScanState W) (cursor : Results W.cjson)
      {row : Option (List (Option W.server.Datum))} {s' : ScanState W}
      → s.cursor ≡ cursor
      → iterate_foreign_scan W natts s ≡ ok (row, s')
      → s'.api ≡ s.api
  unfolding iterate_foreign_scan
  iterate_at_api natts s uninitialised e h = absurd (cc (rw (e, iterate_foreign_scan) at h))
  iterate_at_api natts s (chain []) e h =
      ap (λ (x : Option (List (Option W.server.Datum)) × ScanState W). x.1.api)
        (sym (ok-injective (rw (e, iterate_foreign_scan) at h)))
  iterate_at_api natts s (chain (r ∷ rs)) e h =
      let (row, _, h') = >>=-eq-ok (row_for W natts s r) _ (rw (e, iterate_foreign_scan) at h) in
      ap (λ (x : Option (List (Option W.server.Datum)) × ScanState W). x.1.api)
        (sym (ok-injective h'))

  Owns-iterates :
      (natts : ℕ) (plan : Plan W) (s : ScanState W) {row : Option (List (Option W.server.Datum))}
      {s' : ScanState W}
      → iterate_foreign_scan W natts s ≡ ok (row, s')
      → Owns W plan s
      → Owns W plan s'
  Owns-iterates natts plan s h (no_client e) =
      no_client (iterate_at_api natts s s.cursor refl h ∙ e)
  Owns-iterates natts plan s h (one_client e) =
      one_client (iterate_at_api natts s s.cursor refl h ∙ e)

  Owns-rescans :
      (plan : Plan W) (s : ScanState W) (hash : Option W.htab.Table) {s' : ScanState W}
      {hash' : Option W.htab.Table}
      → rescan_foreign_scan W plan s hash ≡ ok (s', hash')
      → Owns W plan s'
  unfolding rescan_foreign_scan
  Owns-rescans plan s hash h =
      let (ended, _, h') = >>=-eq-ok (end_foreign_scan W s) _ h in
      begin_foreign_scan-Owns W plan false hash h'

  Step-HasClients :
      {u : ℕ} {m : ℤ} {b b' : Backend W} {n : ℕ} → Step W u m b n b' → HasClients b → HasClients b'
  Step-HasClients (begins plan explain_only s hash logged regular h) all =
      (begin_foreign_scan-Owns W plan explain_only _ h, all)
  Step-HasClients (iterates natts plan s s' row before after e h) all =
      let (earlier, this, later) = All-split _ before (plan, s) after (rw e at all) in
      All-append _ before _ earlier (Owns-iterates natts plan s h this, later)
  Step-HasClients (rescans plan plan' s s' hash before after e again logged regular h) all =
      let (earlier, this, later) = All-split _ before (plan, s) after (rw e at all) in
      All-append _ before _ earlier (Owns-rescans plan' s _ h, later)
  Step-HasClients (ends plan s s' before after e h) all =
      let (earlier, this, later) = All-split _ before (plan, s) after (rw e at all) in
      All-append _ before _ earlier later

  -- Whatever callbacks a backend makes, in any order: every scan that is open has no client or the
  -- one of its own options, which has not been given back, if that was so at the beginning.
  pub Runs-HasClients :
      {u : ℕ} {m : ℤ} {b b' : Backend W} {n : ℕ} → Runs W u m b n b' → HasClients b → HasClients b'
  Runs-HasClients idle all = all
  Runs-HasClients (more r st) all = Step-HasClients st (Runs-HasClients r all)

  -- A backend that has started without scans has made any callbacks, of any users and in any
  -- order, while one user has kept a limit and the clock has run on for that user (at most 2 ^ 40
  -- microseconds (12 days) lie between a request of the user and the next, and pg_usleep sleeps at
  -- least as long as asked and less than 2 ^ 38 microseconds longer, with three rounds of the loop
  -- to make). Then each scan that is open can be ended: its client, if it has one, is given back
  -- then and was not before.
  pub Runs-ends :
      {u : ℕ} {m : ℤ} {started : ℕ} {hash : Option W.htab.Table} {sent : List String}
      {b : Backend W} {n : ℕ} (plan : Plan W) (s : ScanState W)
      (before after : List (Plan W × ScanState W))
      → Runs W u m (record { started = started; hash = hash; scans = []; sent = sent }) n b
      → b.scans ≡ before ++ (plan, s) ∷ after
      → (api : ApiPointer (Api W.sds)) × (close W s.api ≡ ok api)
        × (end_foreign_scan W s ≡ ok (record s { api = api }))
  unfolding end_foreign_scan
  Runs-ends {b = b} plan s before after r e =
      let all : HasClients b = Runs-HasClients r tt in
      let (_, this, _) = All-split _ before (plan, s) after (rw e at all) in
      let (api, closed) = close-Owns W plan s this in (api, closed, rw closed refl)
