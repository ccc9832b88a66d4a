-- ===== src/Registry/Newest.antt =====
-- The choice of PickNewest (internal/registry/registry.go).
use mathlib.Core.Bool.{true≢false}
use k8s_ai_remediator.Prelude.{
  ◌≡◌, ◌⊎◌, inl, inr, ap, sym, subst, ◌∙◌, Bytes, codes, List, [], ◌∷◌, Bool, true, false, not,
  ◌||◌, eqb, Option, none, some, All, Any, if◌then◌else◌, Bool-cases, Option-cases,
}
use k8s_ai_remediator.Registry.Versions.{
  Version, parse_version, version_less, Best, better, consider, best_of, pick_newest, stand_in,
  tag_or,
}
use k8s_ai_remediator.Registry.Order.{version_less-not_less, version_less_asym, version_less_self}

-- a tag that may be chosen for its version
abbrev pub is_candidate : Bytes → Bytes → Bool
is_candidate exclude tag = not (eqb tag exclude || eqb tag (codes "latest"))

-- `v` is not less than any candidate's version
abbrev pub IsGreatest : Bytes → Version → List Bytes → Type 0
IsGreatest exclude v = All (λ u.
    (w : Version)
    → is_candidate exclude u ≡ true
    → parse_version u ≡ some w
    → version_less v w ≡ false)

-- `tag` is a candidate of the list, of version `v`
abbrev pub IsListedTag : Bytes → Bytes → Version → List Bytes → Type 0
IsListedTag exclude tag v =
    Any (λ u. (u ≡ tag) × (is_candidate exclude u ≡ true) × (parse_version u ≡ some v))

-- the second best is no worse than the first
abbrev Above : Best → Best → Type 0
Above none r = Unit
Above (some (t, v)) none = ⊥
Above (some (t, v)) (some (t', v')) = version_less v' v ≡ false

Above-self : (r : Best) → Above r r
Above-self none = tt
Above-self (some (t, v)) = version_less_self v

Above-trans : (p q r : Best) → Above p q → Above q r → Above p r
Above-trans none q r h g = tt
Above-trans (some (t, u)) none r h g = absurd h
Above-trans (some (t, u)) (some (t', v)) none h g = absurd g
Above-trans (some (t, u)) (some (t', v)) (some (t'', w)) h g = version_less-not_less w v u g h

Above-better : (best : Best) (tag : Bytes) (w : Version) → Above best (better best tag w)
Above-better none tag w = tt
Above-better (some (t, v)) tag w = elim (Bool-cases (version_less v w)) [
  | inl newer ↦ rw newer (version_less_asym v w newer)
  | inr older ↦ rw older (version_less_self v)
]

Above-better_self :
    (best : Best) (tag : Bytes) (w : Version) → Above (some (tag, w)) (better best tag w)
Above-better_self none tag w = version_less_self w
Above-better_self (some (t, v)) tag w = elim (Bool-cases (version_less v w)) [
  | inl newer ↦ rw newer (version_less_self w)
  | inr older ↦ rw older older
]

Above-consider : (best : Best) (tag : Bytes) (o : Option Version) → Above best (consider best tag o)
Above-consider best tag none = Above-self best
Above-consider best tag (some w) = Above-better best tag w

-- one round of the loop
abbrev round : Bytes → Best → Bytes → Best
round exclude best tag =
    if eqb tag exclude || eqb tag (codes "latest")
    then best
    else consider best tag (parse_version tag)

Above-round : (exclude tag : Bytes) (best : Best) → Above best (round exclude best tag)
Above-round exclude tag best = elim (Bool-cases (eqb tag exclude || eqb tag (codes "latest"))) [
  | inl skipped ↦ rw skipped (Above-self best)
  | inr kept ↦ rw kept (Above-consider best tag (parse_version tag))
]

Above-round_self :
    (exclude tag : Bytes) (best : Best) (w : Version)
    → is_candidate exclude tag ≡ true
    → parse_version tag ≡ some w
    → Above (some (tag, w)) (round exclude best tag)
Above-round_self exclude tag best w candidate parsed =
    elim (Bool-cases (eqb tag exclude || eqb tag (codes "latest"))) [
      | inl skipped ↦ absurd (true≢false (sym candidate ∙ ap not skipped))
      | inr kept ↦ rw (kept, parsed) (Above-better_self best tag w)
    ]

Above-best_of :
    (exclude : Bytes) (tags : List Bytes) (best : Best) → Above best (best_of exclude best tags)
unfolding best_of
Above-best_of exclude [] best = Above-self best
Above-best_of exclude (tag ∷ tags) best =
    Above-trans best (round exclude best tag) (best_of exclude (round exclude best tag) tags)
      (Above-round exclude tag best) (Above-best_of exclude tags (round exclude best tag))

-- the result is no worse than any candidate
abbrev IsCovered : Bytes → Best → List Bytes → Type 0
IsCovered exclude r = All (λ u.
    (w : Version)
    → is_candidate exclude u ≡ true
    → parse_version u ≡ some w
    → Above (some (u, w)) r)

best_of-IsCovered :
    (exclude : Bytes) (tags : List Bytes) (best : Best)
    → IsCovered exclude (best_of exclude best tags) tags
unfolding best_of
best_of-IsCovered exclude [] best = tt
best_of-IsCovered exclude (tag ∷ tags) best = (
  (λ w candidate parsed.
      Above-trans (some (tag, w)) (round exclude best tag)
        (best_of exclude (round exclude best tag) tags)
        (Above-round_self exclude tag best w candidate parsed)
        (Above-best_of exclude tags (round exclude best tag))),
  best_of-IsCovered exclude tags (round exclude best tag),
)

better-origin :
    (best : Best) (tag t : Bytes) (w v : Version)
    → better best tag w ≡ some (t, v)
    → (best ≡ some (t, v)) ⊎ ((tag ≡ t) × (w ≡ v))
better-origin none tag t w v h = inr (cc h, cc h)
better-origin (some (t', v')) tag t w v h =
    let chosen : Bool → Best = λ b. if b then some (tag, w) else some (t', v') in
    elim (Bool-cases (version_less v' w)) [
      | inl newer ↦ let e = ap chosen (sym newer) ∙ h in inr (cc e, cc e)
      | inr older ↦ inl (ap chosen (sym older) ∙ h)
    ]

consider-origin :
    (best : Best) (tag t : Bytes) (o : Option Version) (v : Version)
    → consider best tag o ≡ some (t, v)
    → (best ≡ some (t, v)) ⊎ ((tag ≡ t) × (o ≡ some v))
consider-origin best tag t none v h = inl h
consider-origin best tag t (some w) v h = elim (better-origin best tag t w v h) [
  | inl before ↦ inl before
  | inr (is_t, is_v) ↦ inr (is_t, ap some is_v)
]

round-origin :
    (exclude tag : Bytes) (best : Best) (t : Bytes) (v : Version)
    → round exclude best tag ≡ some (t, v)
    → (best ≡ some (t, v))
      ⊎ ((tag ≡ t) × (is_candidate exclude tag ≡ true) × (parse_version tag ≡ some v))
round-origin exclude tag best t v h =
    let next : Bool → Best = λ b. if b then best else consider best tag (parse_version tag) in
    elim (Bool-cases (eqb tag exclude || eqb tag (codes "latest"))) [
      | inl skipped ↦ inl (ap next (sym skipped) ∙ h)
      | inr kept ↦
          elim (consider-origin best tag t (parse_version tag) v (ap next (sym kept) ∙ h)) [
            | inl before ↦ inl before
            | inr (is_t, parsed) ↦ inr (is_t, ap not kept, parsed)
          ]
    ]

best_of-origin :
    (exclude : Bytes) (tags : List Bytes) (best : Best) (t : Bytes) (v : Version)
    → best_of exclude best tags ≡ some (t, v)
    → (best ≡ some (t, v)) ⊎ IsListedTag exclude t v tags
unfolding best_of
best_of-origin exclude [] best t v h = inl h
best_of-origin exclude (tag ∷ tags) best t v h =
    elim (best_of-origin exclude tags (round exclude best tag) t v h) [
      | inl here ↦ elim (round-origin exclude tag best t v here) [
        | inl before ↦ inl before
        | inr listed ↦ inr (inl listed)
      ]
      | inr later ↦ inr (inr later)
    ]

IsCovered-IsGreatest :
    (exclude t : Bytes) (v : Version) (tags : List Bytes)
    → IsCovered exclude (some (t, v)) tags
    → IsGreatest exclude v tags
IsCovered-IsGreatest exclude t v [] h = tt
IsCovered-IsGreatest exclude t v (u ∷ tags) (h, hs) = (h, IsCovered-IsGreatest exclude t v tags hs)

-- no tag can be chosen for its version
abbrev pub HasNoVersion : Bytes → List Bytes → Type 0
HasNoVersion exclude =
    All (λ u. (w : Version) → is_candidate exclude u ≡ true → ¬ (parse_version u ≡ some w))

IsCovered-HasNoVersion :
    (exclude : Bytes) (tags : List Bytes) → IsCovered exclude none tags → HasNoVersion exclude tags
IsCovered-HasNoVersion exclude [] h = tt
IsCovered-HasNoVersion exclude (u ∷ tags) (h, hs) = (h, IsCovered-HasNoVersion exclude tags hs)

-- For every list of tags and every excluded tag: the chosen tag is a listed one that is neither the
-- excluded tag nor "latest", and no other such tag has a greater version; or no such tag has a
-- version, and the choice is "latest" where it is listed and not excluded, and empty otherwise.
pub pick_newest-IsGreatest :
    (tags : List Bytes) (exclude : Bytes)
    → ((v : Version) × IsListedTag exclude (pick_newest tags exclude) v tags
        × IsGreatest exclude v tags)
      ⊎ (HasNoVersion exclude tags × (pick_newest tags exclude ≡ stand_in exclude tags))
unfolding pick_newest
pick_newest-IsGreatest tags exclude =
    let covered = best_of-IsCovered exclude tags none in
    elim (Option-cases (best_of exclude none tags)) [
      | inl nothing ↦ inr (
        IsCovered-HasNoVersion exclude tags (subst (λ r. IsCovered exclude r tags) nothing covered),
        ap (λ r. tag_or r (stand_in exclude tags)) nothing,
      )
      | inr ((t, v), found) ↦ elim (best_of-origin exclude tags none t v found) [
        | inl impossible ↦ absurd (cc impossible)
        | inr listed ↦ inl (
          v,
          subst (λ u. IsListedTag exclude u v tags)
              (sym (ap (λ r. tag_or r (stand_in exclude tags)) found)) listed,
          IsCovered-IsGreatest exclude t v tags
              (subst (λ r. IsCovered exclude r tags) found covered),
        )
      ]
    ]
