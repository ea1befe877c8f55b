-- ===== src/Stats/Report.antt =====
-- The rows that ocgeo_stats gives.
use ocgeo_fdw.Prelude.{
  ℕ, zero, suc, ◌≡◌, ◌≤◌, ◌⊎◌, refl, inl, inr, Bool-cases, true, false, none, some, List, [], ◌∷◌,
  map, length, All, arith,
}
use ocgeo_fdw.Prelude.Int.{ℤ, pos, ltb_ℤ}
use ocgeo_fdw.Prelude.Exec.{ok, crash, pfree_null}
use ocgeo_fdw.Foreign.{Floating}
use ocgeo_fdw.Limiter.{Counters}
use ocgeo_fdw.Stats.{Htab, Tm, row_of, stats_call, stats_calls, stats_first, ocgeo_stats}

-- The service has said when the user's quota is reset.
abbrev pub HasReset : {F : Floating} → Counters F → Type 0
HasReset c = ltb_ℤ (pos 0) c.rate_info.reset ≡ true

module _ {F : Floating} (gmtime : ℤ → Tm) where
  stats_calls_rows :
      (n : ℕ) (cs : List (Counters F))
      → All HasReset cs
      → stats_calls gmtime (suc (length cs)) (record { max_calls = n; hash_seq = some cs })
        ≡ ok (map (row_of gmtime) cs)
  unfolding stats_calls stats_call
  stats_calls_rows n [] h = refl
  stats_calls_rows n (c ∷ cs) h = rw (h.0, stats_calls_rows n cs h.1) refl

  -- Some user's quota has no known reset.
  abbrev pub LacksReset : List (Counters F) → Type 0
  LacksReset [] = ⊥
  LacksReset (c ∷ cs) = (ltb_ℤ (pos 0) c.rate_info.reset ≡ false) ⊎ LacksReset cs

  stats_calls_crash :
      (n fuel : ℕ) (cs : List (Counters F))
      → length cs ≤ fuel
      → LacksReset cs
      → stats_calls gmtime fuel (record { max_calls = n; hash_seq = some cs }) ≡ crash pfree_null
  unfolding stats_calls stats_call
  stats_calls_crash n fuel [] fits h = absurd h
  stats_calls_crash n zero (c ∷ cs) fits h = absurd (omega arith)
  stats_calls_crash n (suc fuel) (c ∷ cs) fits (inl h) = rw (h, stats_call, row_of) refl
  stats_calls_crash n (suc fuel) (c ∷ cs) fits (inr h) =
      elim (Bool-cases (ltb_ℤ (pos 0) c.rate_info.reset)) [
        | inl known ↦
            rw (known, stats_call, row_of) (rw (stats_calls_crash n fuel cs (omega arith) h) refl)
        | inr unknown ↦ rw (unknown, stats_call, row_of) refl
      ]

-- If every user has a reset time, the report is one row for each user in the order of the scan,
-- and empty without a table.
pub ocgeo_stats_rows :
    {F : Floating} (H : Htab F) (gmtime : ℤ → Tm) (t : H.Table)
    → All HasReset (H.entries t)
    → (ocgeo_stats H gmtime (some t) ≡ ok (map (row_of gmtime) (H.entries t)))
      × (ocgeo_stats H gmtime none ≡ ok [])
unfolding ocgeo_stats stats_first stats_calls stats_call
ocgeo_stats_rows H gmtime t h =
    (stats_calls_rows gmtime (length (H.entries t)) (H.entries t) h, refl)

-- If some user's rate information has no reset time, as that of a user without rate limits has
-- none, the report stops the backend.
pub ocgeo_stats_crash :
    {F : Floating} (H : Htab F) (gmtime : ℤ → Tm) (t : H.Table)
    → LacksReset gmtime (H.entries t)
    → ocgeo_stats H gmtime (some t) ≡ crash pfree_null
unfolding ocgeo_stats stats_first
ocgeo_stats_crash H gmtime t h =
    stats_calls_crash gmtime (length (H.entries t)) (suc (length (H.entries t))) (H.entries t)
      (omega arith) h
