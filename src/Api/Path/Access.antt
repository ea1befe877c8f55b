-- ===== src/Api/Path/Access.antt =====
-- Where a path leads, and what the accessors return there.
use ocgeo_fdw.Prelude.{◌≡◌, refl, String, Option, none, some, List, [], ◌∷◌, ◌++◌}
use ocgeo_fdw.Foreign.{Floating, Cjson}
use ocgeo_fdw.Api.Path.{step_into, walk}

module _ {F : Floating} (J : Cjson F) where
  walk-none : (ss : List String) → walk J none ss ≡ none
  unfolding walk
  walk-none [] = refl
  walk-none _ = refl

  -- A path that is put together leads where its second part leads from the end of its first.
  walk-append :
      (o : Option J.Node) (ss ts : List String) → walk J o (ss ++ ts) ≡ walk J (walk J o ss) ts
  unfolding walk
  walk-append none [] ts = refl
  walk-append none (s ∷ ss) ts = rw (walk-none ts) refl
  walk-append (some n) [] ts = refl
  walk-append (some n) (s ∷ ss) ts = walk-append (step_into J n s) ss ts
