-- ===== src/AiSdk/ApprovalPolicy/Words.antt =====
-- Where the words and the parts of the patterns of lib/ai-sdk/approval-policy.ts stand in a text.
use moatazalasrai.Prelude.{
  ℕ, ◌≡◌, refl, sym, subst, Bool, true, false, ◌||◌, List, [], ◌∷◌, ◌++◌, any, arith, Bool-cases,
  inl, inr,
}
use moatazalasrai.Prelude.Text.{Text, text_eq, text_eq_iff, has_text, starts_with, includes_text}
use moatazalasrai.AiSdk.ApprovalPolicy.{
  fold_char, fold_text, is_word_char, matches_word, has_word, has_part,
}

-- Whether a word character stands before the end of the text, or else before the text.
abbrev pub ends_inside : Bool → Text → Bool
ends_inside inside [] = inside
ends_inside inside (c ∷ s) = ends_inside (is_word_char c) s

abbrev pub starts_inside : Text → Bool
starts_inside [] = false
starts_inside (c ∷ s) = is_word_char c

-- One of the words stands in the text, in either case, with no word character before or after it.
abbrev pub ShowsWord : List Text → Bool → Text → Type 0
ShowsWord words inside text =
    (before : Text) × (c : ℕ) × (middle : Text) × (after : Text) × (text
      ≡ before ++ c ∷ (middle ++ after))
    × (has_text words (fold_char c ∷ fold_text middle) ≡ true)
    × (ends_inside inside before ≡ false)
    × (starts_inside after ≡ false)

-- One of the parts stands in the text, in either case.
abbrev pub ShowsPart : List Text → Text → Type 0
ShowsPart parts text =
    (part : Text) × (before : Text) × (after : Text) × (has_text parts part ≡ true)
    × (fold_text text ≡ before ++ part ++ after)

or_right : (a b : Bool) → (a || b) ≡ false → b ≡ false
or_right a b h = ground arith

-- A test that no member passes.
pub none_passes :
    (p : Text → Bool) (xs : List Text) (t : Text)
    → any p xs ≡ false
    → has_text xs t ≡ true
    → p t ≡ false
unfolding has_text
none_passes p [] t h m = absurd (cc m)
none_passes p (x ∷ xs) t h m = elim (Bool-cases (text_eq t x)) [
  | inl hit ↦
      let e : t ≡ x = (text_eq_iff t x).0 hit in subst (λ y. p y ≡ false) (sym e) (ground arith)
  | inr miss ↦ none_passes p xs t (ground arith) (rw miss at m)
]

matches_word-folded :
    (middle after : Text)
    → starts_inside after ≡ false
    → matches_word (fold_text middle) (middle ++ after) ≡ true
unfolding matches_word fold_text
matches_word-folded [] [] h = refl
matches_word-folded [] (c ∷ s) h = rw h refl
matches_word-folded (c ∷ middle) after h = ground (arith, matches_word-folded middle after)

has_word-eq-false :
    (words : List Text) (inside : Bool) (before : Text) (c : ℕ) (middle after : Text)
    → has_word words inside (before ++ c ∷ (middle ++ after)) ≡ false
    → has_text words (fold_char c ∷ fold_text middle) ≡ true
    → ends_inside inside before ≡ false
    → starts_inside after ≡ false
    → matches_word (fold_char c ∷ fold_text middle) (c ∷ (middle ++ after)) ≡ false
unfolding has_word
has_word-eq-false words inside [] c middle after h m b a =
    none_passes (λ word. matches_word word (c ∷ (middle ++ after))) words
      (fold_char c ∷ fold_text middle) (ground arith) m
has_word-eq-false words inside (d ∷ before) c middle after h m b a =
    has_word-eq-false words (is_word_char d) before c middle after (or_right _ _ h) m b a

-- A text in which the test finds no word shows none.
pub has_word-ShowsWord :
    (words : List Text) (inside : Bool) (text : Text)
    → has_word words inside text ≡ false
    → ¬ ShowsWord words inside text
unfolding fold_text
has_word-ShowsWord words inside text h (before, c, middle, after, e, m, b, a) =
    let found : matches_word (fold_char c ∷ fold_text middle) (c ∷ (middle ++ after)) ≡ true =
      matches_word-folded (c ∷ middle) after a in
    let missed =
      has_word-eq-false words inside before c middle after
        (subst (λ t. has_word words inside t ≡ false) e h) m b a in
    absurd (cc (found, missed))

starts_with-append : (part after : Text) → starts_with (part ++ after) part ≡ true
unfolding starts_with
starts_with-append [] [] = refl
starts_with-append [] (c ∷ after) = refl
starts_with-append (p ∷ part) after = ground (arith, starts_with-append part after)

includes_text-append :
    (before part after : Text) → includes_text (before ++ part ++ after) part ≡ true
unfolding includes_text
includes_text-append [] [] [] = starts_with-append [] []
includes_text-append [] [] (c ∷ after) = rw (starts_with-append [] (c ∷ after)) refl
includes_text-append [] (p ∷ part) after = rw (starts_with-append (p ∷ part) after) refl
includes_text-append (c ∷ before) part after =
    ground (arith, includes_text-append before part after)

-- A text in which the test finds no part shows none.
pub has_part-ShowsPart :
    (parts : List Text) (text : Text) → has_part parts text ≡ false → ¬ ShowsPart parts text
unfolding has_part
has_part-ShowsPart parts text h (part, before, after, m, e) =
    let missed = none_passes (includes_text (fold_text text)) parts part h m in
    let found =
      subst (λ t. includes_text t part ≡ true) (sym e) (includes_text-append before part after) in
    absurd (cc (found, missed))
