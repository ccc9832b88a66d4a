-- ===== src/Text/Parts.antt =====
-- strings.Split and strings.Join against each other, and strings.TrimSpace on both.
use mathlib.Core.List.{cons-ne-nil}
use k8s_ai_remediator.Prelude.{
  ◌≡◌, ◌≢◌, refl, ℕ, false, List, [], ◌∷◌, ◌++◌, arith, Bytes, All, length, ◌≤◌, if◌then◌else◌,
  Bool-cases, inl, inr, sym, ap, ◌∙◌, ==_self, ◌==◌,
}
use k8s_ai_remediator.Text.{
  trim_space, trim_left, trim_right, keep_unless_blank, split, prepend, join, has_byte, is_space,
}
use k8s_ai_remediator.Text.Trim.{trim_left_kept, trim_right_fixed}

-- not empty, and without outer blanks
abbrev pub IsTrimmed : Bytes → Type 0
IsTrimmed v = (v ≢ []) × (trim_space v ≡ v)

module _ (sep : ℕ) where
  abbrev pub Lacks : Bytes → Type 0
  Lacks v = has_byte sep v ≡ false

  prepend-Lacks :
      (c : ℕ) (parts : List Bytes)
      → (c == sep) ≡ false
      → All Lacks parts
      → All Lacks (prepend c parts)
  prepend-Lacks c [] h all = unfold has_byte in (ground arith, tt)
  prepend-Lacks c (part ∷ parts) h all = (unfold has_byte in ground (arith, all.0), all.1)

  pub split-Lacks : (s : Bytes) → All Lacks (split sep s)
  unfolding split has_byte
  split-Lacks [] = (refl, tt)
  split-Lacks (c ∷ s) = elim (Bool-cases (c == sep)) [
    | inl cut ↦ rw cut (refl, split-Lacks s)
    | inr kept ↦ rw kept (prepend-Lacks c (split sep s) kept (split-Lacks s))
  ]

  trim_left-Lacks : (s : Bytes) → Lacks s → Lacks (trim_left s)
  unfolding trim_left has_byte
  trim_left-Lacks [] h = h
  trim_left-Lacks (c ∷ s) h = ground (arith, trim_left-Lacks s)

  keep_unless_blank-Lacks :
      (c : ℕ) (r : Bytes) → (c == sep) ≡ false → Lacks r → Lacks (keep_unless_blank c r)
  unfolding has_byte
  keep_unless_blank-Lacks c [] h k = ground arith
  keep_unless_blank-Lacks c (d ∷ r) h k = ground arith

  trim_right-Lacks : (s : Bytes) → Lacks s → Lacks (trim_right s)
  unfolding trim_right has_byte
  trim_right-Lacks [] h = h
  trim_right-Lacks (c ∷ s) h =
      keep_unless_blank-Lacks c (trim_right s) (ground arith) (trim_right-Lacks s (ground arith))

  pub trim_space-Lacks : (s : Bytes) → Lacks s → Lacks (trim_space s)
  unfolding trim_space
  trim_space-Lacks s h = trim_right-Lacks (trim_left s) (trim_left-Lacks s h)

  -- a part without the separator stays whole before the next one
  split-append : (p rest : Bytes) → Lacks p → split sep (p ++ (sep ∷ rest)) ≡ p ∷ split sep rest
  unfolding split has_byte
  split-append [] rest h = ground (arith, ==_self sep)
  split-append (c ∷ p) rest h = ground (arith, split-append p rest)

  split_whole : (p : Bytes) → Lacks p → split sep p ≡ p ∷ []
  unfolding split has_byte
  split_whole [] h = refl
  split_whole (c ∷ p) h = ground (arith, split_whole p)

  pub split-join :
      (p : Bytes) (ps : List Bytes)
      → All Lacks (p ∷ ps)
      → split sep (join (sep ∷ []) (p ∷ ps)) ≡ p ∷ ps
  unfolding join
  split-join p [] h = split_whole p h.0
  split-join p (q ∷ ps) h =
      split-append p (join (sep ∷ []) (q ∷ ps)) h.0 ∙ ap (◌∷◌ p) (split-join q ps h.1)

append-ne-nil : (a b : Bytes) → b ≢ [] → a ++ b ≢ []
append-ne-nil [] b h = h
append-ne-nil (x ∷ a) b h = cons-ne-nil x (a ++ b)

-- A text that ends in a trimmed one has no blank at its end.
trim_right-append : (a b : Bytes) → b ≢ [] → trim_right b ≡ b → trim_right (a ++ b) ≡ a ++ b
unfolding trim_right
trim_right-append [] b h e = e
trim_right-append (c ∷ a) b h e =
    ap (keep_unless_blank c) (trim_right-append a b h e) ∙ kept (a ++ b) (append-ne-nil a b h)
  where
    kept : (r : Bytes) → r ≢ [] → keep_unless_blank c r ≡ c ∷ r
    kept [] h = absurd (h refl)
    kept (d ∷ r) h = refl

length-trim_left : (s : Bytes) → length (trim_left s) ≤ length s
unfolding trim_left
length-trim_left [] = omega arith
length-trim_left (c ∷ s) = ground (arith, length-trim_left s)

starts_kept : (c : ℕ) (s : Bytes) → trim_left (c ∷ s) ≡ c ∷ s → is_space c ≡ false
unfolding trim_left
starts_kept c s e = elim (Bool-cases (is_space c)) [
  | inr kept ↦ kept
  | inl blank ↦
      let shorter : trim_left s ≡ c ∷ s =
        ap (λ b. if b then trim_left s else c ∷ s) (sym blank) ∙ e in
      absurd (omega (arith, length-trim_left s, ap length shorter))
]

-- A text that begins with a trimmed one has no blank at its start.
trim_left-append : (a b : Bytes) → a ≢ [] → trim_left a ≡ a → trim_left (a ++ b) ≡ a ++ b
unfolding trim_left
trim_left-append [] b h e = absurd (h refl)
trim_left-append (c ∷ a) b h e = rw (starts_kept c a e) refl

trim_space_ends : (s : Bytes) → trim_left s ≡ s → trim_right s ≡ s → trim_space s ≡ s
unfolding trim_space
trim_space_ends s h k = ap trim_right h ∙ k

module _ (sep : Bytes) where
  pub join-ne-nil : (p : Bytes) (ps : List Bytes) → All IsTrimmed (p ∷ ps) → join sep (p ∷ ps) ≢ []
  unfolding join
  join-ne-nil p [] h = h.0.0
  join-ne-nil p (q ∷ ps) h =
      append-ne-nil p (sep ++ join sep (q ∷ ps))
        (append-ne-nil sep (join sep (q ∷ ps)) (join-ne-nil q ps h.1))

  trim_right-join :
      (p : Bytes) (ps : List Bytes)
      → All IsTrimmed (p ∷ ps)
      → trim_right (join sep (p ∷ ps)) ≡ join sep (p ∷ ps)
  unfolding join
  trim_right-join p [] h = trim_right_fixed p h.0.1
  trim_right-join p (q ∷ ps) h =
      let rest = join sep (q ∷ ps) in
      trim_right-append p (sep ++ rest) (append-ne-nil sep rest (join-ne-nil q ps h.1))
        (trim_right-append sep rest (join-ne-nil q ps h.1) (trim_right-join q ps h.1))

  trim_left-join :
      (p : Bytes) (ps : List Bytes)
      → All IsTrimmed (p ∷ ps)
      → trim_left (join sep (p ∷ ps)) ≡ join sep (p ∷ ps)
  unfolding join
  trim_left-join p [] h = trim_left_kept p h.0.1
  trim_left-join p (q ∷ ps) h = trim_left-append p _ h.0.0 (trim_left_kept p h.0.1)

  pub trim_space-join :
      (p : Bytes) (ps : List Bytes)
      → All IsTrimmed (p ∷ ps)
      → trim_space (join sep (p ∷ ps)) ≡ join sep (p ∷ ps)
  trim_space-join p ps h =
      trim_space_ends (join sep (p ∷ ps)) (trim_left-join p ps h) (trim_right-join p ps h)
