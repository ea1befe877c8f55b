-- ===== src/Scan/Memory/Released.antt =====
-- What a scan holds when it has begun, and what is left of it when it has ended.
use ocgeo_fdw.Prelude.{
  inl, inr, ℕ, ◌+◌, ◌≡◌, refl, ap, ◌∙◌, sym, Option, none, some, String, List, [], ◌∷◌, ◌++◌, arith,
  Bool, true, false,
}
use ocgeo_fdw.Prelude.Exec.{Exec, ok, >>=-eq-ok, ok-injective}
use ocgeo_fdw.Api.Types.{Response, chain, zero_response}
use ocgeo_fdw.Api.Request.{Api, forward}
use ocgeo_fdw.Api.Memory.{
  Block, client, client_key, client_server, Event, releases, settle, init_events, close_events,
  forward_events,
}
use ocgeo_fdw.Api.Memory.Settled.{one, settle-++, settle-acquires, settle-releases, response_held}
use ocgeo_fdw.Api.Memory.Acquired.{lost}
use ocgeo_fdw.Api.Memory.Released.{forward-settles}
use ocgeo_fdw.Limiter.Outcome.{submit-Counts}
use ocgeo_fdw.Stats.{get_counters}
use ocgeo_fdw.World.{World}
use ocgeo_fdw.Scan.Memory.{
  query_events, begin_events, end_events, Scanning, begun, rescanned, Beginning, IsAnswer,
  AreAnswers, asked, unasked,
}
use ocgeo_fdw.Scan.Life.{Owns, no_client, one_client, begin_foreign_scan-Owns}
use ocgeo_fdw.Scan.{
  service_of, ApiPointer, null, opened, ScanState, Plan, nothing_pushed, prepared, collect_quals,
  apply_quals, client_of, options_of, scan_params, submit_query, send_query, query_if_any,
  begin_foreign_scan, end_foreign_scan, rescan_foreign_scan,
}

module _ (W : World) where
  open W use {cjson as J, sds as S, curl as C, htab as H}

  abbrev client_held : ApiPointer (Api S) → Block → ℕ
  client_held (opened api) b = one client b + (one client_key b + one client_server b)
  client_held _ b = 0

  -- What has been acquired and not released when a scan has begun: its client, its response, and
  -- the document.
  abbrev Holds : List Event → Bool → ScanState W → Type 0
  Holds es answered s =
      (b : Block) (n : ℕ)
      → settle b es n
        ≡ some (
            client_held s.api b + (response_held s.response b + (lost J answered (chain []) b + n)))

  nothing-Holds :
      (s : ScanState W) {s' : ScanState W} {hash hash' : Option H.Table}
      → s.api ≡ null
      → s.response ≡ zero_response J
      → ◌≡◌ {A = Exec (ScanState W × Option H.Table)} (ok (s, hash)) (ok (s', hash'))
      → Holds [] false s'
  unfolding settle
  nothing-Holds s {s'} e e' h =
      let same : s ≡ s' = ap (λ (x : ScanState W × Option H.Table). x.0) (ok-injective h) in
      λ b n. rw (← same, e, e') (ap some (omega arith))

  init_events-settle :
      (b : Block) (es : List Event) (n : ℕ)
      → settle b (init_events ++ es) n
        ≡ settle b es (one client b + (one client_key b + one client_server b) + n)
  init_events-settle b es n =
      settle-acquires client b _ n
      ∙ settle-acquires client_key b _ _
      ∙ settle-acquires client_server b es _
      ∙ ap (settle b es) (omega arith)

  close_events-settle :
      (b : Block) (n : ℕ)
      → settle b close_events (one client b + (one client_key b + one client_server b) + n) ≡ some n
  unfolding settle
  close_events-settle b n =
      settle-releases client_server b (releases client_key ∷ releases client ∷ [])
        (one client b + (one client_key b + n)) (omega arith)
      ∙ settle-releases client_key b (releases client ∷ []) (one client b + n) (omega arith)
      ∙ settle-releases client b [] n refl

  -- A query that was sent: its client and its response are held.
  send_query-Holds :
      (plan : Plan W) (hash : Option H.Table) (s : ScanState W) (query : String) {s' : ScanState W}
      {hash' : Option H.Table}
      → s.response ≡ zero_response J
      → s.qual_value ≡ some query
      → send_query W plan hash s query ≡ ok (s', hash')
      → (answered : Bool) × IsAnswer W
          (record { plan = plan; explain_only = false; state = s' })
          answered
        × Holds (query_events W plan false s (some query)) answered s'
  unfolding send_query submit_query
  send_query-Holds plan hash s query {s'} fresh value h =
      let (r, e, e') = >>=-eq-ok (submit_query W plan hash s query) _ h in
      let c = (get_counters H hash (options_of W plan) plan.now).1 in
      let params = some (scan_params W s.min_confidence) in
      let called = forward J S C (client_of W plan) query params s.response in
      let (reply, once, counted) =
        submit-Counts plan.clock (service_of W plan query s.min_confidence s.response)
          (options_of W plan).max_reqs_sec c s.sent e in
      let (reply', came, logged) = >>=-eq-ok called _ once in
      let same : reply' ≡ reply =
        ap (λ (x : (Bool × Response J) × List String). x.0) (ok-injective logged) in
      let sent : called ≡ ok reply = came ∙ ap (λ x. ok x) same in
      let kept : reply.1 ≡ s'.response =
        sym counted.response
        ∙ ap (λ (x : ScanState W × Option H.Table). x.0.response) (ok-injective e') in
      let api : opened (client_of W plan) ≡ s'.api =
        ap (λ (x : ScanState W × Option H.Table). x.0.api) (ok-injective e') in
      let events = forward_events J S C (client_of W plan) query params s.response in
      let asked_it : s'.qual_value ≡ some query =
        ap (λ (x : ScanState W × Option H.Table). x.0.qual_value) (sym (ok-injective e')) ∙ value in
      let confident : s.min_confidence ≡ s'.min_confidence =
        ap (λ (x : ScanState W × Option H.Table). x.0.min_confidence) (ok-injective e') in
      let replied : forward J S C (client_of W plan) query (some (scan_params W s'.min_confidence))
            (zero_response J)
          ≡ ok (reply.0, s'.response) =
        rw (← confident, ← fresh, ← kept) sent in
      (
        reply.0,
        asked query refl asked_it replied,
        λ b n.
            let held = one client b + (one client_key b + one client_server b) in
            init_events-settle b events n
            ∙ ap (settle b events) (omega (arith, ap (λ (r : Response J). response_held r b) fresh))
            ∙ forward-settles J S C (client_of W plan) query params s.response b (held + n) sent
            ∙ ap some (
                omega (
                  arith,
                  ap (λ (r : Response J). response_held r b) kept,
                  ap (λ (r : Response J). lost J reply.0 r.results b) fresh,
                  ap (λ a. client_held a b) api,
                )),
      )

  query_if_any-Holds :
      (plan : Plan W) (explain_only : Bool) (hash : Option H.Table) (s : ScanState W)
      (value : Option String) {s' : ScanState W} {hash' : Option H.Table}
      → s.api ≡ null
      → s.response ≡ zero_response J
      → s.qual_value ≡ value
      → query_if_any W plan explain_only hash s value ≡ ok (s', hash')
      → (answered : Bool) × IsAnswer W
          (record { plan = plan; explain_only = explain_only; state = s' })
          answered
        × Holds (query_events W plan explain_only s value) answered s'
  query_if_any-Holds plan true hash s value idle fresh given h =
      (false, unasked (inl refl), nothing-Holds s idle fresh h)
  query_if_any-Holds plan false hash s none {s'} idle fresh given h =
      let none_given : s'.qual_value ≡ none =
        ap (λ (x : ScanState W × Option H.Table). x.0.qual_value) (sym (ok-injective h)) ∙ given in
      (false, unasked (inr none_given), nothing-Holds s idle fresh h)
  query_if_any-Holds plan false hash s (some query) idle fresh given h =
      send_query-Holds plan hash s query fresh given h

  begin_foreign_scan-Holds :
      (plan : Plan W) (explain_only : Bool) (hash : Option H.Table) {s : ScanState W}
      {hash' : Option H.Table}
      → begin_foreign_scan W plan explain_only hash ≡ ok (s, hash')
      → (answered : Bool) × IsAnswer W
          (record { plan = plan; explain_only = explain_only; state = s })
          answered
        × Holds (begin_events W plan explain_only) answered s
  unfolding begin_foreign_scan begin_events
  begin_foreign_scan-Holds plan explain_only hash h =
      let (quals, collected, h₁) =
        >>=-eq-ok (collect_quals W plan.scanrelid plan.fdw_exprs []) _ h in
      let (p, pushed, h₂) = >>=-eq-ok (apply_quals W plan.params quals (nothing_pushed W)) _ h₁ in
      let ready = prepared W plan p in
      rw (collected, pushed)
        (query_if_any-Holds plan explain_only hash ready ready.qual_value refl refl refl h₂)

  end_events-settle :
      (plan : Plan W) (s : ScanState W) (b : Block) (n : ℕ)
      → Owns W plan s
      → settle b (end_events W s.api) (client_held s.api b + n) ≡ some n
  unfolding settle
  end_events-settle plan s b n (no_client e) = rw e (ap some (omega arith))
  end_events-settle plan s b n (one_client e) = rw e (close_events-settle b n)

  -- A rescan begins a scan anew.
  rescan-begins :
      (plan : Plan W) (s : ScanState W) (hash : Option H.Table) {r : ScanState W × Option H.Table}
      → rescan_foreign_scan W plan s hash ≡ ok r
      → begin_foreign_scan W plan false hash ≡ ok r
  unfolding rescan_foreign_scan
  rescan-begins plan s hash h = let (ended, e, h') = >>=-eq-ok (end_foreign_scan W s) _ h in h'

  Scanning-Owns :
      {plan : Plan W} {es : List Event} {xs : List (Beginning W)} {s : ScanState W}
      → Scanning W plan es xs s
      → Owns W plan s
  Scanning-Owns {plan = plan} (begun explain_only hash h) =
      begin_foreign_scan-Owns W plan explain_only hash h
  Scanning-Owns {plan = plan} (rescanned {s = s} hash before again h) =
      begin_foreign_scan-Owns W plan false hash (rescan-begins plan s hash h)

  -- The documents of the requests that were answered.
  abbrev pub documents_held : List Bool → Block → ℕ
  documents_held [] b = 0
  documents_held (answered ∷ answers) b = lost J answered (chain []) b + documents_held answers b

  abbrev pub responses_of : List (Beginning W) → Block → ℕ
  responses_of [] b = 0
  responses_of (x ∷ xs) b = response_held x.state.response b + responses_of xs b

  -- All that was acquired and not released so far.
  Scanning-held :
      {plan : Plan W} {es : List Event} {xs : List (Beginning W)} {s : ScanState W}
      → Scanning W plan es xs s
      → (answers : List Bool) × AreAnswers W xs answers
        × ((b : Block) (n : ℕ)
            → settle b es n
              ≡ some (client_held s.api b + (responses_of xs b + (documents_held answers b + n))))
  unfolding AreAnswers
  Scanning-held {plan = plan} (begun explain_only hash h) =
      let (answered, known, holds) = begin_foreign_scan-Holds plan explain_only hash h in
      (answered ∷ [], (known, tt), λ b n. holds b n ∙ ap some (omega arith))
  Scanning-held {xs = x ∷ xs}
        (rescanned {plan = plan} {plan' = plan'} {es = es} {s = s} hash before again h) =
      let (answers, known, held) = Scanning-held before in
      let (answered, known', holds) =
        begin_foreign_scan-Holds plan' false hash (rescan-begins plan' s hash h) in
      (
        answered ∷ answers,
        (known', known),
        λ b n.
            let rest = responses_of xs b + (documents_held answers b + n) in
            settle-++ b (es ++ end_events W s.api) (begin_events W plan' false) n (
              settle-++ b es (end_events W s.api) n (held b n)
              ∙ end_events-settle plan s b rest (Scanning-Owns before))
            ∙ holds b rest
            ∙ ap some (omega arith),
      )

  -- A scan that has begun, was rescanned any number of times, each time with a plan of its time,
  -- and ends gives back its client each time, and releases nothing that it does not hold. What it
  -- never gives back is the response of each time that it began, with its URL, its results and
  -- their bounds, and the document of each of those times at which the service was asked and
  -- answered.
  pub scan_leaves :
      {plan : Plan W} {es : List Event} {xs : List (Beginning W)} {s : ScanState W}
      → Scanning W plan es xs s
      → (answers : List Bool) × AreAnswers W xs answers
        × ((b : Block) (n : ℕ)
            → settle b (es ++ end_events W s.api) n
              ≡ some (responses_of xs b + (documents_held answers b + n)))
  scan_leaves {plan = plan} {es = es} {s = s} scanning =
      let (answers, known, held) = Scanning-held scanning in
      (
        answers,
        known,
        λ b n.
            settle-++ b es (end_events W s.api) n (held b n)
            ∙ end_events-settle plan s b _ (Scanning-Owns scanning),
      )
