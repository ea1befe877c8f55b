-- ===== src/Scan/Session/Counted.antt =====
-- The calls that the statistics count, and the requests that a user's scans send.
use ocgeo_fdw.Prelude.{
  refl, Bool, Option, sym, ℕ, ◌+◌, ◌≤◌, ◌≡◌, ◌∙◌, inl, inr, Bool-cases, some, arith,
}
use ocgeo_fdw.Prelude.Int.{ℤ, pos, negsuc, ◌+ℤ◌, int32, int32_of_IsInt32, IsInt32}
use ocgeo_fdw.Foreign.{Floating, Cjson}
use mathlib.Core.Path.{subst}
use mathlib.Core.Option.{some-injective}
use ocgeo_fdw.Prelude.Exec.{ok}
use ocgeo_fdw.Api.Types.{Response}
use ocgeo_fdw.Limiter.{Counters, Readings, submit_answered}
use ocgeo_fdw.Limiter.Outcome.{succeeds, answered-Counts}
use ocgeo_fdw.Stats.{IsMap, table_of}
use ocgeo_fdw.World.{World}
use ocgeo_fdw.Scan.Session.{Backend, Runs}
use ocgeo_fdw.Scan.Session.Users.{Current, known, newly_made, Runs-Keeps}

-- Counting on from a number that has wrapped around is counting on.
int32_next : (a : ℤ) (n : ℕ) → int32 (int32 (a +ℤ pos n) +ℤ pos 1) ≡ int32 (a +ℤ pos (n + 1))
unfolding int32 ◌+ℤ◌
int32_next (pos a) n = ground arith
int32_next (negsuc a) n = ground arith

int32_zero : (a : ℤ) → IsInt32 a → a ≡ int32 (a +ℤ pos 0)
unfolding ◌+ℤ◌
int32_zero (pos a) h = ground (arith, int32_of_IsInt32 (pos a))
int32_zero (negsuc a) h = ground (arith, int32_of_IsInt32 (negsuc a))

module _ {F : Floating} where
  -- From counters `c` of the user to those now: `n` calls more, and some of them successes, in the
  -- arithmetic of an `int`.
  pub record IsCounted (c : Counters F) (n : ℕ) (now : Counters F) : Type 0 where
    pub succeeded : ℕ
    pub at_most : succeeded ≤ n
    pub calls : now.calls ≡ int32 (c.calls +ℤ pos n)
    pub success_calls : now.success_calls ≡ int32 (c.success_calls +ℤ pos succeeded)

  IsCounted-submit :
      {J : Cjson F} {c : Counters F} {n : ℕ} {now : Counters F} (clock : Readings) (m : ℤ)
      (reply : Bool × Response J) (result : Bool × Counters F × Response J)
      → submit_answered clock reply m now ≡ ok result
      → IsCounted c n now
      → IsCounted c (n + 1) result.1
  IsCounted-submit {c = c} {n = n} {now = now} clock m reply result h counted =
      let counts = answered-Counts clock m now reply h in
      elim (Bool-cases (succeeds reply)) [
        | inl good ↦ record {
          succeeded = counted.succeeded + 1;
          at_most = omega (arith, counted.at_most);
          calls = counts.calls ∙ rw (counted.calls) (int32_next c.calls n);
          success_calls =
              (rw good at counts.success_calls)
              ∙ rw (counted.success_calls) (int32_next c.success_calls counted.succeeded);
        }
        | inr bad ↦ record {
          succeeded = counted.succeeded;
          at_most = omega (arith, counted.at_most);
          calls = counts.calls ∙ rw (counted.calls) (int32_next c.calls n);
          success_calls = (rw bad at counts.success_calls) ∙ counted.success_calls;
        }
      ]

module _ (W : World) (laws : IsMap W.htab) (u : ℕ) (m : ℤ) where
  open W use {htab as H, floating as F, cjson as J}

  -- The user is in the table, with counters that have counted on.
  data CountsOn (c : Counters F) (n : ℕ) (o : Option (Counters F)) : Type 0 where
    counted : (now : Counters F) → o ≡ some now → IsCounted c n now → CountsOn c n o

  CountsOn-submit :
      {c₀ : Counters F} {o : Option (Counters F)} {c : Counters F} {started : ℕ} (n : ℕ)
      (clock : Readings) (reply : Bool × Response J) (result : Bool × Counters F × Response J)
      → Current m started o c
      → submit_answered clock reply m c ≡ ok result
      → CountsOn c₀ n o
      → CountsOn c₀ (n + 1) (some result.1)
  CountsOn-submit {c₀} n clock reply result (known e) h (counted now found k) =
      let same : now ≡ _ = some-injective _ _ (sym found ∙ e) in
      counted result.1 refl
        (IsCounted-submit clock m reply result h (subst (IsCounted c₀ n) same k))
  CountsOn-submit n clock reply result (newly_made options now absent e _ _ _) h
        (counted c found k) =
      absurd (cc (absent, found))

  CountsOn-result :
      {c : Counters F} {n : ℕ} {o : Option (Counters F)}
      → CountsOn c n o
      → (c' : Counters F) × (o ≡ some c') × IsCounted c n c'
  CountsOn-result (counted now found k) = (now, found, k)

  -- Whatever scans of a backend begin, go on, begin again at a later time and end, in any order
  -- and of any users, while the user keeps a limit and the clock runs on for the user (at most 2 ^
  -- 40 microseconds (12 days) lie between a request of the user and the next, and pg_usleep sleeps
  -- at least as long as asked and less than 2 ^ 38 microseconds longer, with three rounds of the
  -- loop to make): the calls that are counted for the user grow by the queries that the service is
  -- sent for the user's scans, and the successes by some of them, where an `int` wraps around.
  pub Runs-IsCounted :
      {b b' : Backend W} {n : ℕ} (c : Counters F)
      → IsInt32 c.calls
      → IsInt32 c.success_calls
      → H.find (table_of H b.hash) u ≡ some c
      → Runs W u m b n b'
      → (c' : Counters F) × (H.find (table_of H b'.hash) u ≡ some c') × IsCounted c n c'
  Runs-IsCounted {b} c fits fits' found r =
      let (k, _) =
        Runs-Keeps W laws u m b.started (CountsOn c)
          (λ n clock reply o c' result now t h p. CountsOn-submit n clock reply result now h p) refl
          r
          (record {
            holds = counted c found (record {
              succeeded = 0;
              at_most = omega arith;
              calls = int32_zero c.calls fits;
              success_calls = int32_zero c.success_calls fits';
            });
          }) in
      CountsOn-result k.holds
