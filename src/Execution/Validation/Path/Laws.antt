-- ===== src/Execution/Validation/Path/Laws.antt =====
-- A path that is accepted stays inside the workspace.
use mathlib.Core.List.{append_assoc}
use moatazalasrai.Prelude.{
  ℕ, ◌≡◌, refl, sym, subst, ◌⊎◌, inl, inr, Bool, true, false, ◌||◌, not, List, [], ◌∷◌, ◌++◌, ◌==◌,
  if◌then◌else◌, any, length, All, any-eq-false, arith, Bool-cases, not-inv, ||-inv,
}
use moatazalasrai.Prelude.Text.{Text, codes, text_eq, text_eq_iff, trim, starts_with, ends_with}
use moatazalasrai.Execution.Errors.{ok, guard-eq-ok, ok-injective}
use moatazalasrai.Execution.Validation.Path.{
  split_path, join_first, join_with, go_up, enter, onto, resolve, normalize_posix, strip_slashes,
  normalize_workspace_path, is_bad_char, or_dot,
}

abbrev NoSlash : Text → Type 0
NoSlash s = All (λ c. (c == b'/') ≡ false) s

abbrev is_up : Text → Bool
is_up s = text_eq s (codes "..")

-- A segment that goes down.
abbrev IsName : Text → Type 0
IsName s = NoSlash s × (text_eq s [] ≡ false) × (is_up s ≡ false)

abbrev AllUp : List Text → Type 0
AllUp = All (λ s. is_up s ≡ true)

-- The segments that are kept: names over a number of `..`.
abbrev IsKept : List Text → Type 0
IsKept [] = Unit
IsKept (t ∷ ts) = (IsName t × IsKept ts) ⊎ ((is_up t ≡ true) × AllUp ts)

-- The segments of a result: a number of `..`, then names.
abbrev IsNormal : List Text → Type 0
IsNormal [] = Unit
IsNormal (s ∷ ss) = ((is_up s ≡ true) × IsNormal ss) ⊎ (IsName s × All IsName ss)

join_first-NoSlash :
    (c : ℕ) (ss : List Text) → (c == b'/') ≡ false → All NoSlash ss → All NoSlash (join_first c ss)
join_first-NoSlash c [] h a = ((h, tt), tt)
join_first-NoSlash c (s ∷ ss) h a = ((h, a.0), a.1)

split_path-NoSlash : (s : Text) → All NoSlash (split_path s)
unfolding split_path
split_path-NoSlash [] = (tt, tt)
split_path-NoSlash (c ∷ s) = elim (Bool-cases (c == b'/')) [
  | inl slash ↦ rw slash (tt, split_path-NoSlash s)
  | inr other ↦ rw other (join_first-NoSlash c (split_path s) other (split_path-NoSlash s))
]

AllUp-IsKept : (ts : List Text) → AllUp ts → IsKept ts
AllUp-IsKept [] h = tt
AllUp-IsKept (t ∷ ts) h = inr (h.0, h.1)

is_up_self : is_up (codes "..") ≡ true
unfolding text_eq
is_up_self = refl

go_up-IsKept : (kept : List Text) → IsKept kept → IsKept (go_up kept)
go_up-IsKept [] h = inr (is_up_self, tt)
go_up-IsKept (t ∷ ts) (inl (name, rest)) = rw name.2 rest
go_up-IsKept (t ∷ ts) (inr (up, ups)) = rw up (inr (is_up_self, (up, ups)))

enter-IsKept : (kept : List Text) (s : Text) → NoSlash s → IsKept kept → IsKept (enter kept s)
unfolding enter
enter-IsKept kept s whole h = elim (Bool-cases (text_eq s [] || text_eq s (codes "."))) [
  | inl skipped ↦ rw skipped h
  | inr kept_on ↦ elim (Bool-cases (is_up s)) [
    | inl up ↦ rw (kept_on, up) (go_up-IsKept kept h)
    | inr down ↦ rw (kept_on, down) (inl ((whole, (||-inv (text_eq s []) _ kept_on).0, down), h))
  ]
]

onto-AllUp : (ts done : List Text) → AllUp ts → IsNormal done → IsNormal (onto ts done)
unfolding onto
onto-AllUp [] done h d = d
onto-AllUp (t ∷ ts) done h d = onto-AllUp ts (t ∷ done) h.1 (inl (h.0, d))

AllName-IsNormal : (ss : List Text) → All IsName ss → IsNormal ss
AllName-IsNormal [] h = tt
AllName-IsNormal (s ∷ ss) h = inr (h.0, h.1)

onto-IsKept : (ts done : List Text) → IsKept ts → All IsName done → IsNormal (onto ts done)
unfolding onto
onto-IsKept [] done h d = AllName-IsNormal done d
onto-IsKept (t ∷ ts) done (inl (name, rest)) d = onto-IsKept ts (t ∷ done) rest (name, d)
onto-IsKept (t ∷ ts) done (inr (up, ups)) d =
    onto-AllUp ts (t ∷ done) ups (inl (up, AllName-IsNormal done d))

resolve-IsNormal : (kept ss : List Text) → IsKept kept → All NoSlash ss → IsNormal (resolve kept ss)
unfolding resolve
resolve-IsNormal kept [] h w = onto-IsKept kept [] h tt
resolve-IsNormal kept (s ∷ ss) h w =
    resolve-IsNormal (enter kept s) ss (enter-IsKept kept s w.0 h) w.1

-- A name in front of a slash is the first segment.
split_path-slash : (s rest : Text) → NoSlash s → split_path (s ++ b'/' ∷ rest) ≡ s ∷ split_path rest
unfolding split_path
split_path-slash [] rest h = refl
split_path-slash (c ∷ s) rest h = rw (h.0, split_path-slash s rest h.1) refl

-- A text without a slash is one segment.
split_path-whole : (s : Text) → NoSlash s → split_path (s ++ []) ≡ s ∷ []
unfolding split_path
split_path-whole [] h = refl
split_path-whole (c ∷ s) h = rw (h.0, split_path-whole s h.1) refl

-- A segment that does not lead out.
abbrev pub IsInside : Text → Type 0
IsInside s = is_up s ≡ false

-- What stands behind the segments: nothing, or the slash that the path ended in.
abbrev tail_of : Bool → Text
tail_of b = if b then codes "/" else []

empty-IsInside : IsInside []
unfolding text_eq
empty-IsInside = refl

join_with-IsInside :
    (b : Bool) (s : Text) (ss : List Text)
    → IsName s
    → All IsName ss
    → All IsInside (split_path (join_with (codes "/") (s ∷ ss) ++ tail_of b))
unfolding join_with
join_with-IsInside true s [] h hs =
    rw (split_path-slash s [] h.0) (h.2, (unfold split_path in (empty-IsInside, tt)))
join_with-IsInside false s [] h hs = rw (split_path-whole s h.0) (h.2, tt)
join_with-IsInside b s (u ∷ us) h hs =
    let rest = join_with (codes "/") (u ∷ us) in
    let grouped : join_with (codes "/") (s ∷ u ∷ us) ++ tail_of b
        ≡ s ++ b'/' ∷ (rest ++ tail_of b) =
      append_assoc s (b'/' ∷ rest) (tail_of b) in
    subst (λ t. All IsInside (split_path t)) (sym grouped)
      (rw (split_path-slash s (rest ++ tail_of b) h.0) (h.2, join_with-IsInside b u us hs.0 hs.1))

-- The text of the segments, as `posix.normalize` puts it together.
abbrev finish : Bool → List Text → Text
finish b ss =
    (if length (join_with (codes "/") ss) == 0 then codes "." else join_with (codes "/") ss)
    ++ tail_of b

join_with-length :
    (s : Text) (ss : List Text) → IsName s → (length (join_with (codes "/") (s ∷ ss)) == 0) ≡ false
unfolding join_with text_eq
join_with-length [] ss h = absurd (cc (h.1))
join_with-length (c ∷ s) [] h = ground arith
join_with-length (c ∷ s) (u ∷ us) h = ground arith

-- Segments that begin with `..` show in the text.
up-shows :
    (b : Bool) (ss : List Text)
    → (text_eq (finish b (codes ".." ∷ ss)) (codes "..")
        || starts_with (finish b (codes ".." ∷ ss)) (codes "../"))
      ≡ true
unfolding join_with text_eq starts_with
up-shows true [] = refl
up-shows false [] = refl
up-shows b (u ∷ us) =
    let long : (length (join_with (codes "/") (codes ".." ∷ u ∷ us)) == 0) ≡ false = ground arith in
    rw long refl

finish-IsInside :
    (b : Bool) (ss : List Text)
    → IsNormal ss
    → (text_eq (finish b ss) (codes "..") || starts_with (finish b ss) (codes "../")) ≡ false
    → All IsInside (split_path (finish b ss))
finish-IsInside true [] n h = unfold join_with split_path text_eq in (refl, (refl, tt))
finish-IsInside false [] n h = unfold join_with split_path text_eq in (refl, tt)
finish-IsInside b (s ∷ ss) (inl (up, rest)) h =
    let leads_up : s ≡ codes ".." = (text_eq_iff s (codes "..")).0 up in
    absurd (
      cc (
        up-shows b ss,
        subst
            (λ t.
              (text_eq (finish b (t ∷ ss)) (codes "..")
                || starts_with (finish b (t ∷ ss)) (codes "../"))
              ≡ false)
            leads_up h,
      ))
finish-IsInside b (s ∷ ss) (inr (name, names)) h =
    rw (join_with-length s ss name) (join_with-IsInside b s ss name names)

normalize_posix-finish :
    (path : Text)
    → normalize_posix path ≡ finish (ends_with path (codes "/")) (resolve [] (split_path path))
unfolding normalize_posix
normalize_posix-finish path = refl

-- A path that is accepted has no segment `..` and no segment `.moataz`, so it stays inside the
-- workspace and out of its internal data; and it is relative.
pub normalize_workspace_path-IsInside :
    (value : Text) {path : Text}
    → normalize_workspace_path value ≡ ok path
    → All
        (λ s. (text_eq s (codes "..") ≡ false) × (text_eq (codes ".moataz") s ≡ false))
        (split_path path)
      × (starts_with path (codes "/") ≡ false)
unfolding normalize_workspace_path
normalize_workspace_path-IsInside value {path} h =
    let given = or_dot (strip_slashes (trim value)) in
    let (_, h1) = guard-eq-ok (not (any is_bad_char value)) _ _ h in
    let (below, h2) =
      guard-eq-ok
        (not (
          text_eq (normalize_posix given) (codes "..")
          || starts_with (normalize_posix given) (codes "../")
          || starts_with (normalize_posix given) (codes "/")))
        _ _ h1 in
    let (foreign, last) =
      guard-eq-ok (not (any (text_eq (codes ".moataz")) (split_path (normalize_posix given)))) _ _
        h2 in
    let (inside, relative) =
      ||-inv _ (starts_with (normalize_posix given) (codes "/")) (not-inv _ below) in
    subst
      (λ p.
        All (λ s. (text_eq s (codes "..") ≡ false) × (text_eq (codes ".moataz") s ≡ false))
          (split_path p)
        × (starts_with p (codes "/") ≡ false))
      (ok-injective last)
      (
        both (split_path (normalize_posix given)) (normal-IsInside given inside) (
            any-eq-false (text_eq (codes ".moataz")) (split_path (normalize_posix given))
              (not-inv _ foreign)),
        relative,
      )
  where
    normal-IsInside :
        (given : Text)
        → (text_eq (normalize_posix given) (codes "..")
            || starts_with (normalize_posix given) (codes "../"))
          ≡ false
        → All IsInside (split_path (normalize_posix given))
    normal-IsInside given e = rw (normalize_posix-finish given) (
        finish-IsInside (ends_with given (codes "/")) (resolve [] (split_path given))
          (resolve-IsNormal [] (split_path given) tt (split_path-NoSlash given))
          (rw (normalize_posix-finish given) at e))

    both :
        (ss : List Text)
        → All IsInside ss
        → All (λ s. text_eq (codes ".moataz") s ≡ false) ss
        → All (λ s. (text_eq s (codes "..") ≡ false) × (text_eq (codes ".moataz") s ≡ false)) ss
    both [] a b = tt
    both (s ∷ ss) a b = ((a.0, b.0), both ss a.1 b.1)
