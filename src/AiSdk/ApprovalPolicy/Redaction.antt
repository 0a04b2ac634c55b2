-- ===== src/AiSdk/ApprovalPolicy/Redaction.antt =====
-- `redactedArgumentSummary`: what a user is shown of the arguments of a call. A number is kept as it
-- is, so it is opaque.
use moatazalasrai.Prelude.{
  ℕ, zero, suc, ◌+◌, ◌≤◌, ◌≡◌, refl, Bool, true, [], ◌∷◌, ◌++◌, if◌then◌else◌, ltb, arith,
  Bool-cases, inl, inr, length, take,
}
use moatazalasrai.Prelude.Text.{Text, codes}
use moatazalasrai.AiSdk.ApprovalPolicy.{sensitive_parts, has_part}

mutual
  pub data Value : Type 0 where
    null : Value
    bool : Bool → Value
    number : ℕ → Value
    text : Text → Value
    array : Items → Value
    object : Fields → Value

  pub data Items : Type 0 where
    nil : Items
    item : Value → Items → Items

  pub data Fields : Type 0 where
    end : Fields
    field : Text → Value → Fields → Fields

-- `SENSITIVE_KEY.test(key)`
unfoldable pub is_sensitive : Text → Bool
unfolding has_part
is_sensitive key = has_part sensitive_parts key

abbrev pub redacted : Text
redacted = codes "[redacted]"

abbrev pub nested : Text
nested = codes "[nested]"

abbrev pub shorten : Text → Text
shorten t = if ltb 160 (length t) then take 157 t ++ codes "..." else t

-- `levels` are left before what is deeper is shown as nested; `room` is how many more items or
-- fields are kept.
unfoldable mutual
  pub summarize : ℕ → Value → Value
  summarize zero value = text nested
  summarize (suc levels) null = null
  summarize (suc levels) (bool b) = bool b
  summarize (suc levels) (number n) = number n
  summarize (suc levels) (text t) = text (shorten t)
  summarize (suc levels) (array items) = array (summarize_items levels 8 items)
  summarize (suc levels) (object fields) = object (summarize_fields levels 20 fields)

  pub summarize_items : ℕ → ℕ → Items → Items
  summarize_items levels zero items = nil
  summarize_items levels (suc room) nil = nil
  summarize_items levels (suc room) (item value items) =
      item (summarize levels value) (summarize_items levels room items)

  pub summarize_fields : ℕ → ℕ → Fields → Fields
  summarize_fields levels zero fields = end
  summarize_fields levels (suc room) end = end
  summarize_fields levels (suc room) (field key value fields) =
      field key (if is_sensitive key then text redacted else summarize levels value)
        (summarize_fields levels room fields)

-- `redactedArgumentSummary(value)`: what is at depth 4 is nested.
unfoldable pub redacted_summary : Value → Value
unfolding summarize
redacted_summary value = summarize 4 value

abbrev pub size_items : Items → ℕ
size_items nil = 0
size_items (item value items) = suc (size_items items)

abbrev pub size_fields : Fields → ℕ
size_fields end = 0
size_fields (field key value fields) = suc (size_fields fields)

-- What a summary may hold: as many levels of short texts, short lists and small objects, and under a
-- sensitive name nothing but the mark.
unfoldable mutual
  pub IsShown : ℕ → Value → Type 0
  IsShown levels null = Unit {0}
  IsShown levels (bool b) = Unit {0}
  IsShown levels (number n) = Unit {0}
  IsShown levels (text t) = length t ≤ 160
  IsShown zero (array items) = ⊥
  IsShown zero (object fields) = ⊥
  IsShown (suc levels) (array items) = (size_items items ≤ 8) × AreShown levels items
  IsShown (suc levels) (object fields) = (size_fields fields ≤ 20) × FieldsShown levels fields

  pub AreShown : ℕ → Items → Type 0
  AreShown levels nil = Unit {0}
  AreShown levels (item value items) = IsShown levels value × AreShown levels items

  pub FieldsShown : ℕ → Fields → Type 0
  FieldsShown levels end = Unit {0}
  FieldsShown levels (field key value fields) =
      IsShown levels value
      × (is_sensitive key ≡ true → value ≡ text redacted)
      × FieldsShown levels fields

length-take-le : (n : ℕ) (xs : Text) → length (take n xs) ≤ n
length-take-le zero xs = omega arith
length-take-le (suc n) [] = omega arith
length-take-le (suc n) (x ∷ xs) = omega (arith, length-take-le n xs)

length-append : (xs ys : Text) → length (xs ++ ys) ≡ length xs + length ys
length-append [] ys = omega arith
length-append (x ∷ xs) ys = omega (arith, length-append xs ys)

shorten-length : (t : Text) → length (shorten t) ≤ 160
shorten-length t = elim (Bool-cases (ltb 160 (length t))) [
  | inl long ↦
      rw long (omega (arith, length-append (take 157 t) (codes "..."), length-take-le 157 t))
  | inr short ↦ rw short (ground arith)
]

mark-IsShown : (levels : ℕ) → IsShown levels (text redacted)
unfolding IsShown
mark-IsShown levels = omega arith

mutual
  unfolding summarize summarize_items summarize_fields IsShown AreShown FieldsShown

  summarize-IsShown : (levels : ℕ) (value : Value) → IsShown levels (summarize levels value)
  summarize-IsShown zero value = omega arith
  summarize-IsShown (suc levels) null = tt
  summarize-IsShown (suc levels) (bool b) = tt
  summarize-IsShown (suc levels) (number n) = tt
  summarize-IsShown (suc levels) (text t) = shorten-length t
  summarize-IsShown (suc levels) (array items) = items-shown levels 8 items
  summarize-IsShown (suc levels) (object fields) = fields-shown levels 20 fields

  items-shown :
      (levels room : ℕ) (items : Items)
      → (size_items (summarize_items levels room items) ≤ room)
        × AreShown levels (summarize_items levels room items)
  items-shown levels zero items = (omega arith, tt)
  items-shown levels (suc room) nil = (omega arith, tt)
  items-shown levels (suc room) (item value items) =
      let (small, shown) = items-shown levels room items in
      (omega (arith, small), (summarize-IsShown levels value, shown))

  fields-shown :
      (levels room : ℕ) (fields : Fields)
      → (size_fields (summarize_fields levels room fields) ≤ room)
        × FieldsShown levels (summarize_fields levels room fields)
  fields-shown levels zero fields = (omega arith, tt)
  fields-shown levels (suc room) end = (omega arith, tt)
  fields-shown levels (suc room) (field key value fields) =
      let (small, shown) = fields-shown levels room fields in
      let inside = summarize-IsShown levels value in
      elim (Bool-cases (is_sensitive key)) [
        | inl sensitive ↦
            rw sensitive (omega (arith, small), (mark-IsShown levels, λ h. refl, shown))
        | inr plain ↦ rw plain (omega (arith, small), (inside, λ h. absurd (cc h), shown))
      ]

-- Whatever the arguments of a call are, the summary has at most four levels, lists of at most eight
-- and objects of at most twenty, and texts of at most 160 characters; and the value under a name
-- that looks like a secret is the mark, at every level.
pub redacted_summary-IsShown : (value : Value) → IsShown 4 (redacted_summary value)
unfolding redacted_summary
redacted_summary-IsShown value = summarize-IsShown 4 value
