-- ===== src/Stats.antt =====
-- The counters per user and their report (ocgeoGetCounters and ocgeo_stats in ocgeo_fdw.c). The
-- hash table of PostgreSQL is a parameter, and so are pg_gmtime and the texts of doubles.
pub mod Users
pub mod Report
mod Tests
use Prim.Native.String.{String}
use ocgeo_fdw.Prelude.{
  ℕ, zero, suc, ◌-◌, ◌≡◌, Bool, Option, none, some, List, [], ◌∷◌, ◌==◌, length, if◌then◌else◌,
}
use ocgeo_fdw.Prelude.Int.{ℤ, pos, negsuc, ◌+ℤ◌, ◌-ℤ◌, int32, ltb_ℤ}
use ocgeo_fdw.Prelude.Exec.{Exec, ok, crash, unfinished, pfree_null, ◌>>=◌}
use ocgeo_fdw.Prelude.Ctext.{◌<>◌, print_int}
use ocgeo_fdw.Foreign.{Floating}
use ocgeo_fdw.Api.Types.{RateInfo, no_rate_info}
use ocgeo_fdw.Limiter.{Timeval, Counters}
use ocgeo_fdw.Options.{TableOptions}

-- A hash table (HTAB) from user identifiers to counters: hash_create, hash_search with HASH_ENTER
-- on a key that is there or is not, the write through the pointer to an entry, and the entries in
-- the order of a sequential scan.
pub record Htab (F : Floating) : Type 1 where
  pub Table : Type 0
  pub create : Table
  pub find : Table → ℕ → Option (Counters F)
  pub enter : Table → ℕ → Counters F → Table
  pub entries : Table → List (Counters F)

-- What dynahash promises of these.
pub record IsMap {F : Floating} (H : Htab F) : Type 0 where
  pub find_create : (k : ℕ) → H.find H.create k ≡ none
  pub find_enter :
      (t : H.Table) (j k : ℕ) (c : Counters F)
      → H.find (H.enter t j c) k ≡ (if j == k then some c else H.find t k)

module _ {F : Floating} where
  -- A new entry.
  abbrev pub new_counters : TableOptions → Timeval → Counters F
  new_counters options now = record {
    calls = pos 0;
    success_calls = pos 0;
    total_time = F.of_long (pos 0);
    rate_info = no_rate_info;
    ts = now;
    tokens = options.max_reqs_sec;
  }

  -- The table, made on the first use.
  abbrev pub table_of : (H : Htab F) → Option H.Table → H.Table
  table_of H none = H.create
  table_of H (some t) = t

  -- ocgeoGetCounters: the table and the user's entry in it.
  unfoldable pub get_counters :
      (H : Htab F) → Option H.Table → TableOptions → Timeval → H.Table × Counters F
  get_counters H ocgeo_hash options now =
      let t = table_of H ocgeo_hash in
      elim (H.find t options.user_id) [
        | some c ↦ (t, c)
        | none ↦ (H.enter t options.user_id (new_counters options now), new_counters options now)
      ]

-- What pg_gmtime gives.
pub record Tm : Type 0 where
  pub year : ℤ
  pub mon : ℤ
  pub mday : ℤ
  pub hour : ℤ
  pub min : ℤ
  pub sec : ℤ

-- The characters of a text that snprintf keeps in a buffer with room for so many.
pub clip : ℕ → String → String
clip zero s = ""
clip (suc n) String.[] = ""
clip (suc n) (String.◌∷◌ c s) = String.◌∷◌ c (clip n s)

-- The zeros that are missing from a text of digits for a given width.
abbrev missing_zeros : ℕ → String → String
missing_zeros zero s = ""
missing_zeros (suc n) String.[] = "0" <> missing_zeros n String.[]
missing_zeros (suc n) (String.◌∷◌ c s) = missing_zeros n s

-- "%02d", "%04d"
abbrev pub pad : ℕ → ℤ → String
pad width (pos n) = missing_zeros width (print_int (pos n)) <> print_int (pos n)
pad width (negsuc n) =
    "-" <> missing_zeros (width - 1) (print_int (pos (suc n))) <> print_int (pos (suc n))

-- "%04d-%02d-%02d %02d:%02d:%0dZ" with the year counted from 1900.
unfoldable pub print_tm : Tm → String
unfolding print_int ◌+ℤ◌ int32
print_tm tm =
    pad 4 (int32 (tm.year +ℤ pos 1900))
    <> "-"
    <> pad 2 tm.mon
    <> "-"
    <> pad 2 tm.mday
    <> " "
    <> pad 2 tm.hour
    <> ":"
    <> pad 2 tm.min
    <> ":"
    <> print_int tm.sec
    <> "Z"

-- A row of ocgeo_stats.
pub record Row : Type 0 where
  pub total_calls : String
  pub failed_calls : String
  pub total_time : String
  pub rate_limit : String
  pub rate_remaining : String
  pub rate_reset : Option String

-- The context of the function across its calls: the entries that the scan has still to give, none
-- if there is no table.
pub record FuncContext (F : Floating) : Type 0 where
  pub max_calls : ℕ
  pub hash_seq : Option (List (Counters F))

abbrev pub reset_text : (ℤ → Tm) → ℤ → Option String
reset_text gmtime reset =
    if ltb_ℤ (pos 0) reset then some (clip 29 (print_tm (gmtime reset))) else none

-- The row is built, and then its texts are freed: pfree is not for NULL.
abbrev pub free_row : Row → Exec Row
free_row row = elim row.rate_reset [ none ↦ crash pfree_null | some _ ↦ ok row ]

module _ {F : Floating} (gmtime : ℤ → Tm) where
  unfoldable pub row_of : Counters F → Row
  unfolding clip
  row_of c = record {
    total_calls = clip 15 (print_int c.calls);
    failed_calls = clip 15 (print_int (int32 (c.calls -ℤ c.success_calls)));
    total_time = clip 19 (F.print_2 (F.divide c.total_time (F.of_long (pos 1000))));
    rate_limit = clip 15 (print_int c.rate_info.limit);
    rate_remaining = clip 15 (print_int c.rate_info.remaining);
    rate_reset = reset_text gmtime c.rate_info.reset;
  }

  -- One call: a row, or none at the end.
  unfoldable pub stats_call : FuncContext F → Exec (Option Row × FuncContext F)
  unfolding row_of
  stats_call ctx = elim ctx.hash_seq [
    | none ↦ ok (none, ctx)
    | some [] ↦ ok (none, record ctx { hash_seq = none })
    | some (c ∷ cs) ↦
        free_row (row_of c) >>= λ row. ok (some row, record ctx { hash_seq = some cs })
  ]

  -- The calls that the executor makes until there is no row.
  unfoldable pub stats_calls : ℕ → FuncContext F → Exec (List Row)
  stats_calls zero ctx = unfinished
  stats_calls (suc fuel) ctx = stats_call ctx >>= λ r. elim r.0 [
    | none ↦ ok []
    | some row ↦ stats_calls fuel r.1 >>= λ rows. ok (row ∷ rows)
  ]

-- What the first call sets up.
unfoldable pub stats_first : {F : Floating} (H : Htab F) → Option H.Table → FuncContext F
stats_first H none = record { max_calls = 0; hash_seq = none }
stats_first H (some t) = record { max_calls = length (H.entries t); hash_seq = some (H.entries t) }

-- The fuel is one call for each row and one for the end.
unfoldable pub ocgeo_stats :
    {F : Floating} (H : Htab F) → (ℤ → Tm) → Option H.Table → Exec (List Row)
ocgeo_stats H gmtime ocgeo_hash =
    let ctx = stats_first H ocgeo_hash in stats_calls gmtime (suc ctx.max_calls) ctx
