-- ===== src/Kube/Probes/Bounds.antt =====
-- Bounds of the probe timings of PatchDeploymentProbe (internal/kube/kube.go).
use k8s_ai_remediator.Prelude.{
  ◌≡◌, refl, arith, Bytes, Map, [], ◌∷◌, ℤ, ◌≤ℤ◌, ◌⊎◌, ap, sym, ◌∙◌, subst, inl, inr,
}
use k8s_ai_remediator.Result.{Result, ok, err, ok_inj, ◌>>=◌}
use k8s_ai_remediator.Cluster.{Probe}
use k8s_ai_remediator.Kube.Probes.{
  Field, initial_delay, period, failures, successes, timeout, field_bounds, parse_probe_field,
  set_field, set_fields, in_bounds,
}

abbrev pub get_field : Probe → Field → ℤ
get_field p initial_delay = p.initial_delay_seconds
get_field p period = p.period_seconds
get_field p failures = p.failure_threshold
get_field p successes = p.success_threshold
get_field p timeout = p.timeout_seconds

abbrev pub IsInBounds : Field → ℤ → Type 0
IsInBounds f n = ((field_bounds f).0 ≤ℤ n) × (n ≤ℤ (field_bounds f).1)

-- each of the five timings is within its bounds, or as it was in `p`
abbrev pub IsTunedFrom : Probe → Probe → Type 0
IsTunedFrom p p' = (f : Field) → IsInBounds f (get_field p' f) ⊎ (get_field p' f ≡ get_field p f)

in_bounds-IsInBounds :
    (key : Bytes) (f : Field) (n v : ℤ) → in_bounds key (field_bounds f) n ≡ ok v → IsInBounds f v
in_bounds-IsInBounds key f n v h = ground (arith, h)

parse_probe_field-IsInBounds :
    (key raw : Bytes) (f : Field) (v : ℤ) → parse_probe_field key raw ≡ ok (f, v) → IsInBounds f v
unfolding parse_probe_field
parse_probe_field-IsInBounds key raw f v h = ground (arith, h)

set_field-IsTunedFrom :
    (p : Probe) (f : Field) (v : ℤ) → IsInBounds f v → IsTunedFrom p (set_field p f v)
unfolding set_field
set_field-IsTunedFrom p initial_delay v h initial_delay = inl h
set_field-IsTunedFrom p period v h period = inl h
set_field-IsTunedFrom p failures v h failures = inl h
set_field-IsTunedFrom p successes v h successes = inl h
set_field-IsTunedFrom p timeout v h timeout = inl h
set_field-IsTunedFrom p initial_delay v h period = inr refl
set_field-IsTunedFrom p initial_delay v h failures = inr refl
set_field-IsTunedFrom p initial_delay v h successes = inr refl
set_field-IsTunedFrom p initial_delay v h timeout = inr refl
set_field-IsTunedFrom p period v h initial_delay = inr refl
set_field-IsTunedFrom p period v h failures = inr refl
set_field-IsTunedFrom p period v h successes = inr refl
set_field-IsTunedFrom p period v h timeout = inr refl
set_field-IsTunedFrom p failures v h initial_delay = inr refl
set_field-IsTunedFrom p failures v h period = inr refl
set_field-IsTunedFrom p failures v h successes = inr refl
set_field-IsTunedFrom p failures v h timeout = inr refl
set_field-IsTunedFrom p successes v h initial_delay = inr refl
set_field-IsTunedFrom p successes v h period = inr refl
set_field-IsTunedFrom p successes v h failures = inr refl
set_field-IsTunedFrom p successes v h timeout = inr refl
set_field-IsTunedFrom p timeout v h initial_delay = inr refl
set_field-IsTunedFrom p timeout v h period = inr refl
set_field-IsTunedFrom p timeout v h failures = inr refl
set_field-IsTunedFrom p timeout v h successes = inr refl

IsTunedFrom-trans : (p q r : Probe) → IsTunedFrom p q → IsTunedFrom q r → IsTunedFrom p r
IsTunedFrom-trans p q r h g f = elim (g f) [
  | inl bounded ↦ inl bounded
  | inr kept ↦ elim (h f) [
    | inl bounded ↦ inl (subst (IsInBounds f) (sym kept) bounded)
    | inr same ↦ inr (kept ∙ same)
  ]
]

-- one round of the loop, before a rest that keeps the bounds
set_one-IsTunedFrom :
    (p p' : Probe) (r : Result (Field × ℤ)) (rest : Probe → Result Probe)
    → ((f : Field) (v : ℤ) → r ≡ ok (f, v) → IsInBounds f v)
    → ((q : Probe) → rest q ≡ ok p' → IsTunedFrom q p')
    → (r >>= λ fv. rest (set_field p fv.0 fv.1)) ≡ ok p'
    → IsTunedFrom p p'
set_one-IsTunedFrom p p' (ok (f, v)) rest bounded tuned h =
    IsTunedFrom-trans p (set_field p f v) p' (set_field-IsTunedFrom p f v (bounded f v refl))
      (tuned (set_field p f v) h)
set_one-IsTunedFrom p p' (err e) rest bounded tuned h = absurd (cc h)

-- Whatever fields and values a patch names, in any order and repeated, where they are accepted each
-- of the five timings of the resulting probe is within its bounds or as it was before.
pub set_fields-IsTunedFrom :
    (fields : Map Bytes) (p p' : Probe) → set_fields fields p ≡ ok p' → IsTunedFrom p p'
unfolding set_fields
set_fields-IsTunedFrom [] p p' h = λ f. inr (ap (λ q. get_field q f) (sym (ok_inj h)))
set_fields-IsTunedFrom ((key, raw) ∷ fields) p p' h =
    set_one-IsTunedFrom p p' (parse_probe_field key raw) (set_fields fields)
      (parse_probe_field-IsInBounds key raw) (λ q. set_fields-IsTunedFrom fields q p') h
