-- ===== src/Host/Runtime/Paths.antt =====
-- What a path that `validate_runtime_path` accepts means to a file system.
use spawnr.Prelude.{
  ◌≡◌, refl, Bool, true, List, [], ◌∷◌, ◌||◌, not, if◌then◌else◌, all, any, map, ok, ensure,
  ensure-eq-ok, >>=-eq-ok, arith,
}
use spawnr.Prelude.Text.{Str, codes, is_empty, str_eq, split, starts_with, contains, is_control}
use spawnr.Host.Runtime.{
  path_is_empty, path_not_relative, path_has_backslash, path_has_control, path_has_unsafe_component,
  path_outside_layout,
}
use spawnr.Host.Runtime.Rules.{validate_runtime_path, is_safe_component, one_of, top_of}

abbrev pop : List Str → List Str
pop [] = []
pop (d ∷ ds) = ds

-- The directory that a walk along the components leads to, as the list of its names from the last
-- one on: an empty component and `.` stay, and `..` goes up.
pub walk : List Str → List Str → List Str
walk here [] = here
walk here (s ∷ ss) =
    if is_empty s || str_eq s (b'.' ∷ [])
    then walk here ss
    else if str_eq s (b'.' ∷ b'.' ∷ [])
    then walk (pop here) ss
    else walk (s ∷ here) ss

-- The names below `here`.
abbrev pub below : List Str → List Str → List Str
below here [] = here
below here (s ∷ ss) = below (s ∷ here) ss

walk_safe : (here ss : List Str) → all is_safe_component ss ≡ true → walk here ss ≡ below here ss
unfolding walk
walk_safe here [] h = refl
walk_safe here (s ∷ ss) h = ground (arith, walk_safe (s ∷ here) ss)

-- A path that is accepted names an entry below the root that it is joined to, by exactly its own
-- components, whatever the root, and the first component is one of the four directories.
pub validate_runtime_path_inside :
    (path : Str) (directory : Bool) (root : List Str)
    → validate_runtime_path path directory ≡ ok tt
    → (walk root (split b'/' path) ≡ below root (split b'/' path))
      × (one_of (map codes ("bin" ∷ "guest" ∷ "lib" ∷ "share" ∷ [])) (top_of (split b'/' path))
          ≡ true)
unfolding validate_runtime_path
validate_runtime_path_inside path directory root h =
    let (_, _, h1) = >>=-eq-ok (ensure (not (is_empty path)) path_is_empty) _ h in
    let (_, _, h2) =
      >>=-eq-ok (ensure (not (starts_with (b'/' ∷ []) path)) path_not_relative) _ h1 in
    let (_, _, h3) = >>=-eq-ok (ensure (not (contains 92 path)) path_has_backslash) _ h2 in
    let (_, _, h4) = >>=-eq-ok (ensure (not (any is_control path)) path_has_control) _ h3 in
    let (_, safe, h5) =
      >>=-eq-ok (ensure (all is_safe_component (split b'/' path)) path_has_unsafe_component) _ h4 in
    let (_, top, h6) =
      >>=-eq-ok
        (ensure
          (one_of (map codes ("bin" ∷ "guest" ∷ "lib" ∷ "share" ∷ [])) (top_of (split b'/' path)))
          path_outside_layout)
        _ h5 in
    (
      walk_safe root (split b'/' path)
          (ensure-eq-ok (all is_safe_component (split b'/' path)) path_has_unsafe_component safe),
      ensure-eq-ok
          (one_of (map codes ("bin" ∷ "guest" ∷ "lib" ∷ "share" ∷ [])) (top_of (split b'/' path)))
          path_outside_layout top,
    )
