-- ===== src/Api/Path/Fields.antt =====
-- Where a whole path leads (get_json_field): what each of its segments means.
use ocgeo_fdw.Prelude.{arith, ◌^◌, ◌<◌, ◌≡◌, refl, String, Option, none, some, List, [], ◌∷◌, All}
use ocgeo_fdw.Prelude.Int.{pos}
use ocgeo_fdw.Prelude.Ctext.{codes}
use ocgeo_fdw.Foreign.{Floating, Cjson, Sds}
use ocgeo_fdw.Api.Path.{step_into, walk, get_json_field}
use ocgeo_fdw.Api.Path.Index.{
  IsDigit, HasOther, base_11, str_to_maybe_int_digits, str_to_maybe_int_other,
}

-- A segment is all digits, which fit an `int` in base 11, or has another byte.
pub data IsSegment (s : String) : Type 0 where
  an_index : All IsDigit (codes s) → base_11 0 (codes s) < 2 ^ 31 → IsSegment s
  a_name : HasOther (codes s) → IsSegment s

module _ {F : Floating} (J : Cjson F) where
  -- What a segment leads to: an element of an array or a member of an object.
  abbrev pub target : J.Node → (s : String) → IsSegment s → Option J.Node
  target n s (an_index _ _) = J.get_array_item n (pos (base_11 0 (codes s)))
  target n s (a_name _) = J.get_object_item_case_sensitive n s

  abbrev pub targets : Option J.Node → (ss : List String) → All IsSegment ss → Option J.Node
  targets o [] h = o
  targets none (s ∷ ss) h = none
  targets (some n) (s ∷ ss) h = targets (target n s h.0) ss h.1

  step_into-target : (n : J.Node) (s : String) (h : IsSegment s) → step_into J n s ≡ target n s h
  unfolding step_into
  step_into-target n s (an_index digits fits) =
      rw (str_to_maybe_int_digits s digits fits) (ground arith)
  step_into-target n s (a_name other) = rw (str_to_maybe_int_other s other) refl

  walk-targets :
      (o : Option J.Node) (ss : List String) (h : All IsSegment ss) → walk J o ss ≡ targets o ss h
  unfolding walk
  walk-targets none [] h = refl
  walk-targets none (s ∷ ss) h = refl
  walk-targets (some n) [] h = refl
  walk-targets (some n) (s ∷ ss) h =
      rw (step_into-target n s h.0, walk) (walk-targets (target n s h.0) ss h.1)

  -- A path whose segments are each all digits, which fit an `int` in base 11, or have some byte that
  -- is no digit leads from its parent through one segment after the other: digits to the element of
  -- an array at the number that they make in base 11, any other segment to the member of an object
  -- of that name, and to nothing from where there is none.
  pub get_json_field-targets :
      (S : Sds) (parent : J.Node) (path : String) {ss : List String}
      → S.split_len path "." ≡ some ss
      → (h : All IsSegment ss) → get_json_field J S parent path ≡ targets (some parent) ss h
  unfolding get_json_field
  get_json_field-targets S parent path e h = rw (e, get_json_field) (walk-targets (some parent) _ h)
