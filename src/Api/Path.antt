-- ===== src/Api/Path.antt =====
-- Reaching into a result by a path (str_to_maybe_int, get_json_field and the three accessors in
-- ocgeo_api.c).
pub mod Index
pub mod Access
pub mod Fields
use ocgeo_fdw.Prelude.{
  ℕ, ◌-◌, Bool, true, false, ◌&&◌, ◌||◌, not, String, Option, none, some, List, [], ◌∷◌, leb, ltb,
  if◌then◌else◌,
}
use ocgeo_fdw.Prelude.Int.{ℤ, pos, negsuc, ◌+ℤ◌, ◌*ℤ◌, int32, ltb_ℤ}
use ocgeo_fdw.Prelude.Ctext.{codes}
use ocgeo_fdw.Foreign.{Floating, Cjson, Sds}
use ocgeo_fdw.Api.Types.{GeoResult}

-- The cases of the switch: the value of a digit.
abbrev pub digit_value : ℕ → Option ℕ
digit_value c = if leb b'0' c && leb c b'9' then some (c - b'0') else none

-- The loop over the bytes of a segment. `k += 10*k` comes before the digit is added.
unfoldable pub index_loop : ℤ → List ℕ → ℤ
index_loop k [] = k
index_loop k (c ∷ s) = elim (digit_value c) [
  | none ↦ negsuc 0
  | some d ↦ index_loop (int32 (int32 (k +ℤ k *ℤ 10) +ℤ pos d)) s
]

unfoldable pub str_to_maybe_int : String → ℤ
unfolding index_loop
str_to_maybe_int s = index_loop (pos 0) (codes s)

module _ {F : Floating} (J : Cjson F) where
  -- One segment of a path.
  unfoldable pub step_into : J.Node → String → Option J.Node
  unfolding str_to_maybe_int
  step_into current segment =
      let index = str_to_maybe_int segment in
      if ltb_ℤ index (pos 0)
      then J.get_object_item_case_sensitive current segment
      else J.get_array_item current index

  -- The loop over the segments, which stops at NULL.
  unfoldable pub walk : Option J.Node → List String → Option J.Node
  walk none segments = none
  walk (some current) [] = some current
  walk (some current) (segment ∷ segments) = walk (step_into current segment) segments

  unfoldable pub get_json_field : Sds → J.Node → String → Option J.Node
  unfolding walk step_into
  get_json_field S parent path = elim (S.split_len path ".") [
    | none ↦ none
    | some fields ↦ walk (some parent) fields
  ]

  abbrev is_missing : (J.Node → Bool) → J.Node → Bool
  is_missing is_wanted js = J.is_null js || not (is_wanted js)

  -- ocgeo_response_get_str, _int and _dbl: `none` where `ok` is set to false.
  abbrev pub get_as {ℓ} : {A : Type ℓ} → (J.Node → Bool) → (J.Node → A) → Option J.Node → Option A
  get_as is_wanted value none = none
  get_as is_wanted value (some js) = if is_missing is_wanted js then none else some (value js)

  unfoldable pub response_get_str : Sds → GeoResult J → String → Option String
  response_get_str S r path = get_as J.is_string J.valuestring (get_json_field S r.internal path)

  unfoldable pub response_get_int : Sds → GeoResult J → String → Option ℤ
  response_get_int S r path = get_as J.is_number J.valueint (get_json_field S r.internal path)

  unfoldable pub response_get_dbl : Sds → GeoResult J → String → Option F.Double
  response_get_dbl S r path = get_as J.is_number J.valuedouble (get_json_field S r.internal path)
