-- ===== src/WebUi/Decisions/Ring.antt =====
-- The ring against the list of all records, newest first (internal/webui/decisions.go).
use native.Mathlib.Nat.{mod-eq_of_lt, mod-eq-sub-mod}
use mathlib.Core.Path.{ap₂}
use k8s_ai_remediator.Prelude.{
  ℕ, zero, suc, ◌+◌, ◌-◌, ◌%◌, ◌≤◌, ◌<◌, ◌≡◌, ◌≢◌, refl, ap, sym, ◌∙◌, subst, ltb→lt, true, false,
  some, List, [], ◌∷◌, arith, ltb, ◌==◌, get_elem?, set, take, drop, length, if◌then◌else◌,
  Bool-cases, inl, inr, length-set, get_elem?-set_self, get_elem?-set_ne,
}
use k8s_ai_remediator.WebUi.Decisions.{
  DecisionRecord, RecentDecisionRecorder, store, read, read_full, read_partial, read_ring,
}

-- the index of the record that is `i` older than the newest
abbrev pub slot : ℕ → ℕ → ℕ → ℕ
slot next c i = if ltb i next then next - suc i else next + c - suc i

slot_lem : (next c i : ℕ) → next < c → i < c → (next + c - suc i) % c ≡ slot next c i
slot_lem next c i hn hi = elim (Bool-cases (ltb i next)) [
  | inl behind ↦
      let lt = ltb→lt i next behind in
      rw
        (
          behind,
          mod-eq-sub-mod {n = next + c - suc i} {m = c} (omega (arith, lt)),
          mod-eq_of_lt {n = next + c - suc i - c} {m = c} (omega (arith, lt)),
        )
        (omega (arith, lt))
  | inr ahead ↦ rw (ahead, mod-eq_of_lt {n = next + c - suc i} {m = c} (ground arith)) refl
]

-- the index after `next`
abbrev pub wrap : ℕ → ℕ → ℕ
wrap next c = if suc next == c then 0 else suc next

wrap_lem : (next c : ℕ) → next < c → (next + 1) % c ≡ wrap next c
wrap_lem next c h = elim (Bool-cases (suc next == c)) [
  | inl last ↦
      rw
        (
          last,
          mod-eq-sub-mod {n = next + 1} {m = c} (ground arith),
          mod-eq_of_lt {n = next + 1 - c} {m = c} (ground arith),
        )
        (ground arith)
  | inr inside ↦ rw (inside, mod-eq_of_lt {n = next + 1} {m = c} (ground arith)) (omega arith)
]

slot_newest : (next c : ℕ) → next < c → slot (wrap next c) c 0 ≡ next
slot_newest next c h = ground arith

slot_older : (next c j : ℕ) → next < c → suc j < c → slot (wrap next c) c (suc j) ≡ slot next c j
slot_older next c j h k = ground arith

slot_apart : (next c j : ℕ) → next < c → suc j < c → next ≢ slot next c j
slot_apart next c j h k = ground arith

pub record Holds (r : RecentDecisionRecorder) (hist : List DecisionRecord) : Type 0 where
  pub size : length r.buf ≡ r.capacity
  pub in_bounds : r.next < r.capacity
  pub wrapped : r.full ≡ true → r.capacity ≤ length hist
  pub unwrapped : r.full ≡ false → r.next ≡ length hist
  pub recent :
      (i : ℕ)
      → i < r.capacity
      → i < length hist
      → get_elem? r.buf (slot r.next r.capacity i) ≡ get_elem? hist i

-- the ring after a write, `m` being the next index
abbrev stored_at : DecisionRecord → RecentDecisionRecorder → ℕ → RecentDecisionRecorder
stored_at rec r m = record r {
  buf = set r.buf r.next rec;
  next = m;
  full = if m == 0 then true else r.full;
}

module _ (rec : DecisionRecord) (r : RecentDecisionRecorder) (hist : List DecisionRecord)
    (h : Holds r hist) where
  recent_after :
      (i : ℕ)
      → i < r.capacity
      → i < length (rec ∷ hist)
      → get_elem? (set r.buf r.next rec) (slot (wrap r.next r.capacity) r.capacity i)
        ≡ get_elem? (rec ∷ hist) i
  recent_after zero lt _ =
      rw (slot_newest r.next r.capacity h.in_bounds)
        (get_elem?-set_self r.buf r.next rec (rw h.size h.in_bounds))
  recent_after (suc j) lt few = rw (slot_older r.next r.capacity j h.in_bounds lt) (
      get_elem?-set_ne r.buf r.next _ rec (slot_apart r.next r.capacity j h.in_bounds lt)
      ∙ h.recent j (omega arith) (omega arith))

  stored_at-Holds : Holds (stored_at rec r (wrap r.next r.capacity)) (rec ∷ hist)
  stored_at-Holds = record {
    size = length-set r.buf r.next rec ∙ h.size;
    in_bounds = ground (arith, h.in_bounds);
    wrapped = λ e. ground (arith, h.in_bounds, h.wrapped, h.unwrapped);
    unwrapped = λ e. ground (arith, h.in_bounds, h.unwrapped);
    recent = recent_after;
  }

  pub store-Holds : Holds (store rec r) (rec ∷ hist)
  unfolding store
  store-Holds =
      subst (λ m. Holds (stored_at rec r m) (rec ∷ hist))
        (sym (wrap_lem r.next r.capacity h.in_bounds)) stored_at-Holds

drop-cons :
    (xs : List DecisionRecord) (i : ℕ)
    → i < length xs
    → (x : DecisionRecord) × (get_elem? xs i ≡ some x) × (drop i xs ≡ x ∷ drop (suc i) xs)
drop-cons [] i h = elim h [ ]
drop-cons (x ∷ xs) zero h = (x, refl, refl)
drop-cons (x ∷ xs) (suc i) h = drop-cons xs i (omega arith)

drop-length : (xs : List DecisionRecord) → drop (length xs) xs ≡ []
drop-length [] = refl
drop-length (x ∷ xs) = drop-length xs

take-length : (xs : List DecisionRecord) (n : ℕ) → length xs ≤ n → take n xs ≡ xs
take-length [] zero h = refl
take-length [] (suc n) h = refl
take-length (x ∷ xs) zero h = absurd (omega arith)
take-length (x ∷ xs) (suc n) h = ap (◌∷◌ x) (take-length xs n (omega arith))

module _ (r : RecentDecisionRecorder) (hist : List DecisionRecord) (h : Holds r hist) where
  read_full-take :
      (n i : ℕ)
      → i + n ≤ r.capacity
      → i + n ≤ length hist
      → read_full r i n ≡ some (take n (drop i hist))
  unfolding read_full
  read_full-take zero i fits long = refl
  read_full-take (suc n) i fits long =
      let (x, found, split) = drop-cons hist i (omega arith) in
      rw
        (
          slot_lem r.next r.capacity i h.in_bounds (omega arith),
          h.recent i (omega arith) (omega arith),
          found,
          split,
          read_full-take n (suc i) (omega arith) (omega arith),
        )
        refl

  read_partial-drop :
      (k : ℕ) → r.next ≡ length hist → k ≤ r.next → read_partial r k ≡ some (drop (r.next - k) hist)
  unfolding read_partial
  read_partial-drop zero e le =
      ap some (sym (ap (λ k. drop k hist) (omega (arith, e)) ∙ drop-length hist))
  read_partial-drop (suc k) e le =
      let i = r.next - suc k in
      let (x, found, split) = drop-cons hist i (omega arith) in
      let place : k ≡ slot r.next r.capacity i = ground (arith, h.in_bounds) in
      let here =
        ap (get_elem? r.buf) place
        ∙ (h.recent i (omega (arith, h.in_bounds)) (omega arith) ∙ found) in
      let next_one : r.next - k ≡ suc i = omega arith in
      let rest = read_partial-drop k e (omega arith) ∙ ap (λ m. some (drop m hist)) next_one in
      ap₂ read here rest ∙ ap some (sym split)

  pub read_ring-take : read_ring r ≡ some (take r.capacity hist)
  unfolding read_ring
  read_ring-take =
      let no_gap : r.next - r.next ≡ 0 = omega arith in
      elim (Bool-cases r.full) [
        | inl full ↦
            ap (λ b. if b then read_full r 0 r.capacity else read_partial r r.next) full
            ∙ read_full-take r.capacity 0 (omega arith) (omega (arith, h.wrapped full))
        | inr room ↦
            ap (λ b. if b then read_full r 0 r.capacity else read_partial r r.next) room
            ∙ (read_partial-drop r.next (h.unwrapped room) (omega arith)
                ∙ ap some (
                    ap (λ k. drop k hist) no_gap
                    ∙ sym (
                        take-length hist r.capacity
                          (omega (arith, h.unwrapped room, h.in_bounds)))))
      ]
