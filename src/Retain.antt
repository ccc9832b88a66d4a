-- ===== src/Retain.antt =====
-- Maps with distinct keys, and the entries that a loop with `delete` leaves.
use k8s_ai_remediator.Prelude.{
  ◌≡◌, refl, Bool, Option, none, some, [], ◌∷◌, arith, Bytes, Map, lookup, insert, erase, eqb_iff,
  if◌then◌else◌, lookup-insert, lookup-erase,
}

module _ {ℓ} {V : Type ℓ} where
  unfoldable pub retain : (V → Bool) → Map V → Map V
  retain keep [] = []
  retain keep ((k, v) ∷ m) = let rest = retain keep m in if keep v then (k, v) ∷ rest else rest

  abbrev pub IsDistinct : Map V → Type ℓ
  IsDistinct [] = Unit
  IsDistinct ((k, v) ∷ m) = (lookup k m ≡ none) × IsDistinct m

  abbrev pub kept : (V → Bool) → Option V → Option V
  kept keep none = none
  kept keep (some v) = if keep v then some v else none

  lookup-retain-none :
      (keep : V → Bool) (k : Bytes) (m : Map V)
      → lookup k m ≡ none
      → lookup k (retain keep m) ≡ none
  unfolding lookup retain
  lookup-retain-none keep k [] h = refl
  lookup-retain-none keep k ((j, v) ∷ m) h = ground (arith, lookup-retain-none keep k m)

  pub lookup-retain :
      (keep : V → Bool) (k : Bytes) (m : Map V)
      → IsDistinct m
      → lookup k (retain keep m) ≡ kept keep (lookup k m)
  unfolding lookup retain
  lookup-retain keep k [] h = refl
  lookup-retain keep k ((j, v) ∷ m) h =
      ground (arith, lookup-retain keep k m h.1, eqb_iff j k, h.0, lookup-retain-none keep j m h.0)

  pub retain-IsDistinct : (keep : V → Bool) (m : Map V) → IsDistinct m → IsDistinct (retain keep m)
  unfolding retain
  retain-IsDistinct keep [] h = tt
  retain-IsDistinct keep ((j, v) ∷ m) h =
      ground (arith, retain-IsDistinct keep m h.1, lookup-retain-none keep j m h.0)

  pub insert-IsDistinct : (k : Bytes) (v : V) (m : Map V) → IsDistinct m → IsDistinct (insert k v m)
  unfolding insert
  insert-IsDistinct k v [] h = (unfold lookup in refl, tt)
  insert-IsDistinct k v ((j, w) ∷ m) h =
      ground (arith, insert-IsDistinct k v m h.1, lookup-insert k j v m, eqb_iff j k, eqb_iff k j)

  lookup-erase-none : (k j : Bytes) (m : Map V) → lookup j m ≡ none → lookup j (erase k m) ≡ none
  lookup-erase-none k j m h = rw (lookup-erase k j m, h) (ground arith)

  pub erase-IsDistinct : (k : Bytes) (m : Map V) → IsDistinct m → IsDistinct (erase k m)
  unfolding erase
  erase-IsDistinct k [] h = tt
  erase-IsDistinct k ((j, w) ∷ m) h =
      ground (arith, erase-IsDistinct k m h.1, lookup-erase-none k j m h.0)
