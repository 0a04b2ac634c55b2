-- ===== src/Execution/Quota/Laws.antt =====
-- What the merged limits of lib/execution/quota-service.ts are bounded by.
use moatazalasrai.Prelude.{
  ℕ, ◌+◌, ◌≡◌, ◌≤◌, ◌↔◌, refl, List, [], ◌∷◌, Option, none, some, true, or_else, arith, Bool-cases,
  inl, inr, subst,
}
use moatazalasrai.Execution.Errors.{Result, ok, err, ok-injective}
use moatazalasrai.Execution.Schema.{Limits}
use moatazalasrai.Execution.Quota.{
  is_valid, parse_limits, asked_limits, platform_limits, LimitSettings, Layer, apply_layer,
  apply_layers, merge_limits, lower, lower_optional, Used, usage_within,
}

-- A number is at most a bound that may not be given.
abbrev pub AtMost : ℕ → Option ℕ → Type 0
AtMost n none = Unit
AtMost n (some v) = n ≤ v

abbrev pub AtMostOptional : Option ℕ → Option ℕ → Type 0
AtMostOptional o none = Unit
AtMostOptional none (some v) = ⊥
AtMostOptional (some n) (some v) = n ≤ v

-- Every limit is at most what a layer asks for.
pub record IsWithin (l : Limits) (v : Layer) : Type 0 where
  pub timeout_ms : AtMost l.timeout_ms v.timeout_ms
  pub cpu_millis : AtMostOptional l.cpu_millis v.cpu_millis
  pub memory_bytes : AtMost l.memory_bytes v.memory_bytes
  pub disk_bytes : AtMost l.disk_bytes v.disk_bytes
  pub max_processes : AtMost l.max_processes v.max_processes
  pub max_output_bytes : AtMost l.max_output_bytes v.max_output_bytes
  pub max_artifact_bytes : AtMost l.max_artifact_bytes v.max_artifact_bytes
  pub max_network_bytes : AtMostOptional l.max_network_bytes v.max_network_bytes
  pub max_files : AtMost l.max_files v.max_files
  pub max_single_file_bytes : AtMost l.max_single_file_bytes v.max_single_file_bytes

-- The limits of the platform, as a layer.
abbrev pub as_layer : Limits → Layer
as_layer l = record {
  timeout_ms = some l.timeout_ms;
  cpu_millis = l.cpu_millis;
  memory_bytes = some l.memory_bytes;
  disk_bytes = some l.disk_bytes;
  max_processes = some l.max_processes;
  max_output_bytes = some l.max_output_bytes;
  max_artifact_bytes = some l.max_artifact_bytes;
  max_network_bytes = l.max_network_bytes;
  max_files = some l.max_files;
  max_single_file_bytes = some l.max_single_file_bytes;
}

abbrev pub IsWithinLayer : Limits → Option Layer → Type 0
IsWithinLayer l none = Unit
IsWithinLayer l (some v) = IsWithin l v

abbrev pub IsWithinAll : Limits → List (Option Layer) → Type 0
IsWithinAll l [] = Unit
IsWithinAll l (v ∷ vs) = IsWithinLayer l v × IsWithinAll l vs

AtMost-refl : (n : ℕ) → AtMost n (some n)
AtMost-refl n = omega arith

AtMostOptional-refl : (o : Option ℕ) → AtMostOptional o o
AtMostOptional-refl none = tt
AtMostOptional-refl (some n) = omega arith

AtMost-lower : (n : ℕ) (o v : Option ℕ) → AtMost n v → AtMost (lower n o) v
AtMost-lower n none v h = h
AtMost-lower n (some k) none h = tt
AtMost-lower n (some k) (some v) h = omega arith

lower-AtMost : (n : ℕ) (o : Option ℕ) → AtMost (lower n o) o
lower-AtMost n none = tt
lower-AtMost n (some k) = omega arith

AtMostOptional-lower :
    (c o v : Option ℕ) → AtMostOptional c v → AtMostOptional (lower_optional c o) v
AtMostOptional-lower c none v h = h
AtMostOptional-lower none (some k) none h = tt
AtMostOptional-lower none (some k) (some v) h = absurd h
AtMostOptional-lower (some n) (some k) none h = tt
AtMostOptional-lower (some n) (some k) (some v) h = omega arith

lower_optional-AtMost : (c o : Option ℕ) → AtMostOptional (lower_optional c o) o
lower_optional-AtMost c none = tt
lower_optional-AtMost none (some k) = omega arith
lower_optional-AtMost (some n) (some k) = omega arith

as_layer-IsWithin : (l : Limits) → IsWithin l (as_layer l)
as_layer-IsWithin l = record {
  timeout_ms = AtMost-refl _;
  cpu_millis = AtMostOptional-refl _;
  memory_bytes = AtMost-refl _;
  disk_bytes = AtMost-refl _;
  max_processes = AtMost-refl _;
  max_output_bytes = AtMost-refl _;
  max_artifact_bytes = AtMost-refl _;
  max_network_bytes = AtMostOptional-refl _;
  max_files = AtMost-refl _;
  max_single_file_bytes = AtMost-refl _;
}

-- A further layer keeps the bounds that hold already,
apply_layer-keeps : (l : Limits) (u v : Layer) → IsWithin l v → IsWithin (apply_layer l u) v
unfolding apply_layer
apply_layer-keeps l u v h = record {
  timeout_ms = AtMost-lower _ u.timeout_ms _ h.timeout_ms;
  cpu_millis = AtMostOptional-lower _ u.cpu_millis _ h.cpu_millis;
  memory_bytes = AtMost-lower _ u.memory_bytes _ h.memory_bytes;
  disk_bytes = AtMost-lower _ u.disk_bytes _ h.disk_bytes;
  max_processes = AtMost-lower _ u.max_processes _ h.max_processes;
  max_output_bytes = AtMost-lower _ u.max_output_bytes _ h.max_output_bytes;
  max_artifact_bytes = AtMost-lower _ u.max_artifact_bytes _ h.max_artifact_bytes;
  max_network_bytes = AtMostOptional-lower _ u.max_network_bytes _ h.max_network_bytes;
  max_files = AtMost-lower _ u.max_files _ h.max_files;
  max_single_file_bytes = AtMost-lower _ u.max_single_file_bytes _ h.max_single_file_bytes;
}

-- and adds its own.
apply_layer-IsWithin : (l : Limits) (v : Layer) → IsWithin (apply_layer l v) v
unfolding apply_layer
apply_layer-IsWithin l v = record {
  timeout_ms = lower-AtMost _ v.timeout_ms;
  cpu_millis = lower_optional-AtMost _ v.cpu_millis;
  memory_bytes = lower-AtMost _ v.memory_bytes;
  disk_bytes = lower-AtMost _ v.disk_bytes;
  max_processes = lower-AtMost _ v.max_processes;
  max_output_bytes = lower-AtMost _ v.max_output_bytes;
  max_artifact_bytes = lower-AtMost _ v.max_artifact_bytes;
  max_network_bytes = lower_optional-AtMost _ v.max_network_bytes;
  max_files = lower-AtMost _ v.max_files;
  max_single_file_bytes = lower-AtMost _ v.max_single_file_bytes;
}

apply_layers-keeps :
    (l : Limits) (vs : List (Option Layer)) (v : Layer)
    → IsWithin l v
    → IsWithin (apply_layers l vs) v
unfolding apply_layers
apply_layers-keeps l [] v h = h
apply_layers-keeps l (none ∷ vs) v h = apply_layers-keeps l vs v h
apply_layers-keeps l (some u ∷ vs) v h =
    apply_layers-keeps (apply_layer l u) vs v (apply_layer-keeps l u v h)

apply_layers-IsWithinAll :
    (l : Limits) (vs : List (Option Layer)) → IsWithinAll (apply_layers l vs) vs
unfolding apply_layers
apply_layers-IsWithinAll l [] = tt
apply_layers-IsWithinAll l (none ∷ vs) = (tt, apply_layers-IsWithinAll l vs)
apply_layers-IsWithinAll l (some v ∷ vs) = (
  apply_layers-keeps (apply_layer l v) vs v (apply_layer-IsWithin l v),
  apply_layers-IsWithinAll (apply_layer l v) vs,
)

-- What the schema accepts, it returns unchanged.
parse_limits-ok : (l : Limits) {r : Limits} → parse_limits l ≡ ok r → (l ≡ r) × (is_valid r ≡ true)
unfolding parse_limits
parse_limits-ok l {r} h = elim (Bool-cases (is_valid l)) [
  | inl good ↦
      let same_limits : l ≡ r = ok-injective (rw good at h) in
      (same_limits, subst (λ x. is_valid x ≡ true) same_limits good)
  | inr bad ↦ absurd (cc (rw bad at h))
]

-- The limits of the platform are valid.
pub platform_limits-is_valid :
    (s : LimitSettings) {l : Limits} → platform_limits s ≡ ok l → is_valid l ≡ true
unfolding platform_limits
platform_limits-is_valid s h = (parse_limits-ok (asked_limits s) h).1

-- Limits that are merged pass the schema, and each is at most the limit of the platform and at
-- most what every layer asks for, in whatever order the layers come.
pub merge_limits-IsWithin :
    (s : LimitSettings) (layers : List (Option Layer)) {l : Limits}
    → merge_limits s layers ≡ ok l
    → (is_valid l ≡ true)
      × ((base : Limits) × (platform_limits s ≡ ok base) × IsWithin l (as_layer base))
      × IsWithinAll l layers
unfolding merge_limits
merge_limits-IsWithin s layers {l} h = by_base (platform_limits s) refl h
  where
    by_base :
        (r : Result Limits)
        → platform_limits s ≡ r
        → (elim r [ ok base ↦ parse_limits (apply_layers base layers) | err e ↦ err e ]) ≡ ok l
        → (is_valid l ≡ true)
          × ((base : Limits) × (platform_limits s ≡ ok base) × IsWithin l (as_layer base))
          × IsWithinAll l layers
    by_base (ok base) p e =
        let (same_limits, good) = parse_limits-ok (apply_layers base layers) e in
        (
          good,
          (
            base,
            p,
            subst (λ x. IsWithin x (as_layer base)) same_limits
                (apply_layers-keeps base layers (as_layer base) (as_layer-IsWithin base)),
          ),
          subst (λ x. IsWithinAll x layers) same_limits (apply_layers-IsWithinAll base layers),
        )
    by_base (err x) p e = absurd (cc e)

-- Usage raises no complaint exactly when each of the six sums is at most its limit.
pub usage_within_iff :
    (l : Limits) (u : Used)
    → usage_within l u ≡ none ↔ (
        (or_else u.stdout_bytes 0 + or_else u.stderr_bytes 0 ≤ l.max_output_bytes)
        × (or_else u.artifact_bytes 0 ≤ l.max_artifact_bytes)
        × (or_else u.disk_bytes 0 ≤ l.disk_bytes)
        × (or_else u.memory_bytes 0 ≤ l.memory_bytes)
        × (or_else u.processes 0 ≤ l.max_processes)
        × (or_else u.runtime_ms 0 ≤ l.timeout_ms))
unfolding usage_within
usage_within_iff l u = (λ h. ground arith, λ h. ground arith)
