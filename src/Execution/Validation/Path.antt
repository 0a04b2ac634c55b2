-- ===== src/Execution/Validation/Path.antt =====
-- `normalizeWorkspacePath` of lib/execution/validation.ts, with the relative case of
-- `posix.normalize`.
pub mod Laws
use moatazalasrai.Prelude.{
  ℕ, Bool, true, false, ◌&&◌, ◌||◌, not, List, [], ◌∷◌, ◌++◌, ◌==◌, if◌then◌else◌, any, length,
}
use moatazalasrai.Prelude.Text.{Text, codes, text_eq, trim, starts_with, ends_with}
use moatazalasrai.Execution.Errors.{Result, ok, err, ◌>>=◌, ◌>>◌, guard, refuse, path_invalid}

-- The character joins the first segment.
abbrev join_first : ℕ → List Text → List Text
join_first c [] = (c ∷ []) ∷ []
join_first c (s ∷ ss) = (c ∷ s) ∷ ss

-- `text.split("/")`
unfoldable pub split_path : Text → List Text
split_path [] = [] ∷ []
split_path (c ∷ s) = let rest = split_path s in if c == b'/' then [] ∷ rest else join_first c rest

-- `texts.join(separator)`
unfoldable pub join_with : Text → List Text → Text
join_with separator [] = []
join_with separator (t ∷ []) = t
join_with separator (t ∷ u ∷ us) = t ++ (separator ++ join_with separator (u ∷ us))

-- `..` takes the last segment away, or stays where there is none to take.
abbrev go_up : List Text → List Text
go_up [] = codes ".." ∷ []
go_up (t ∷ ts) = if text_eq t (codes "..") then codes ".." ∷ t ∷ ts else ts

-- The segments that are kept, the last one first, after one more.
unfoldable pub enter : List Text → Text → List Text
enter kept s =
    if text_eq s [] || text_eq s (codes ".")
    then kept
    else if text_eq s (codes "..")
    then go_up kept
    else s ∷ kept

unfoldable pub onto : List Text → List Text → List Text
onto [] done = done
onto (t ∷ ts) done = onto ts (t ∷ done)

unfoldable pub resolve : List Text → List Text → List Text
unfolding enter onto
resolve kept [] = onto kept []
resolve kept (s ∷ ss) = resolve (enter kept s) ss

-- `posix.normalize` of a path that is not absolute.
unfoldable pub normalize_posix : Text → Text
unfolding split_path join_with resolve
normalize_posix path =
    let body = join_with (codes "/") (resolve [] (split_path path)) in
    (if length body == 0 then codes "." else body)
    ++ (if ends_with path (codes "/") then codes "/" else [])

-- `replace(/^\/+/, "")`
unfoldable pub strip_slashes : Text → Text
strip_slashes [] = []
strip_slashes (c ∷ s) = if c == b'/' then strip_slashes s else c ∷ s

abbrev is_bad_char : ℕ → Bool
is_bad_char c = c == 0 || c == b'\\'

abbrev or_dot : Text → Text
or_dot [] = codes "."
or_dot (c ∷ s) = c ∷ s

unfoldable pub normalize_workspace_path : Text → Result Text
unfolding normalize_posix strip_slashes
normalize_workspace_path value = do
  guard (not (any is_bad_char value)) (refuse path_invalid)
  let normalized = normalize_posix (or_dot (strip_slashes (trim value)))
  guard
      (not (
        text_eq normalized (codes "..")
        || starts_with normalized (codes "../")
        || starts_with normalized (codes "/")))
      (refuse path_invalid)
  guard (not (any (text_eq (codes ".moataz")) (split_path normalized))) (refuse path_invalid)
  ok normalized
