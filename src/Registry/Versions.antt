-- ===== src/Registry/Versions.antt =====
-- parseVersion, the order of versions, and PickNewest.
use k8s_ai_remediator.Prelude.{
  ℕ, Bytes, codes, ◌++◌, List, [], ◌∷◌, Option, none, some, Bool, true, false, not, ◌||◌, ◌&&◌,
  ◌==◌, ltb, eqb, pos, if◌then◌else◌,
}
use k8s_ai_remediator.Result.{ok}
use k8s_ai_remediator.Text.{has_byte}
use k8s_ai_remediator.Text.Numbers.{is_digit, atoi}
use k8s_ai_remediator.Kube.LastChange.{less_bytes}

pub record Version : Type 0 where
  pub nums : List ℕ
  pub suffix : Bytes

abbrev starts_digit : Bytes → Bool
starts_digit [] = false
starts_digit (c ∷ s) = is_digit c

-- `\d+(?:\.\d+)*` behind the digits read so far: the groups of digits, and what follows
unfoldable pub number_groups : Bytes → List Bytes → Bytes → List Bytes × Bytes
unfolding is_digit
number_groups cur groups [] = (groups ++ cur ∷ [], [])
number_groups cur groups (c ∷ s) =
    let more = number_groups (cur ++ c ∷ []) groups s in
    let next = number_groups [] (groups ++ cur ∷ []) s in
    if is_digit c
    then more
    else if c == b'.' && starts_digit s
    then next
    else (groups ++ cur ∷ [], c ∷ s)

abbrev drop_v : Bytes → Bytes
drop_v [] = []
drop_v (c ∷ s) = if c == b'v' then s else c ∷ s

abbrev cons? : ℕ → Option (List ℕ) → Option (List ℕ)
cons? n none = none
cons? n (some ns) = some (n ∷ ns)

unfoldable pub values_of : List Bytes → Option (List ℕ)
values_of [] = some []
values_of (g ∷ gs) =
    let rest = values_of gs in elim (atoi g) [ ok (pos n) ↦ cons? n rest | _ ↦ none ]

abbrev with_suffix : Bytes → Option (List ℕ) → Option Version
with_suffix suffix none = none
with_suffix suffix (some ns) = some (record { nums = ns; suffix = suffix })

-- `.` of the pattern does not match a line feed
unfoldable pub parse_version : Bytes → Option Version
unfolding number_groups values_of has_byte
parse_version tag =
    let (groups, suffix) = number_groups [] [] (drop_v tag) in
    if not (starts_digit (drop_v tag)) || has_byte 10 suffix
    then none
    else with_suffix suffix (values_of groups)

pub data Verdict : Type 0 where
  less same greater : Verdict

abbrev pub verdict : ℕ → ℕ → Verdict → Verdict
verdict a b rest = if ltb a b then less else if ltb b a then greater else rest

-- the loop over the numbers; a missing one counts as 0
unfoldable pub compare_nums : List ℕ → List ℕ → Verdict
compare_nums [] [] = same
compare_nums [] (b ∷ bs) = verdict 0 b (compare_nums [] bs)
compare_nums (a ∷ as') [] = verdict a 0 (compare_nums as' [])
compare_nums (a ∷ as') (b ∷ bs) = verdict a b (compare_nums as' bs)

-- a bare release outranks a suffixed one of the same numbers
unfoldable pub suffix_less : Bytes → Bytes → Bool
unfolding less_bytes
suffix_less [] [] = false
suffix_less [] (d ∷ t) = false
suffix_less (c ∷ s) [] = true
suffix_less (c ∷ s) (d ∷ t) = less_bytes (c ∷ s) (d ∷ t)

abbrev pub by_verdict : Verdict → Bool → Bool
by_verdict less b = true
by_verdict greater b = false
by_verdict same b = b

unfoldable pub version_less : Version → Version → Bool
unfolding compare_nums suffix_less
version_less v w = by_verdict (compare_nums v.nums w.nums) (suffix_less v.suffix w.suffix)

-- the best tag so far with its version
abbrev pub Best : Type 0
Best = Option (Bytes × Version)

abbrev pub better : Best → Bytes → Version → Best
better none tag v = some (tag, v)
better (some (t, w)) tag v = if version_less w v then some (tag, v) else some (t, w)

abbrev pub consider : Best → Bytes → Option Version → Best
consider best tag none = best
consider best tag (some v) = better best tag v

-- the loop of PickNewest
unfoldable pub best_of : Bytes → Best → List Bytes → Best
best_of exclude best [] = best
best_of exclude best (tag ∷ tags) =
    best_of exclude
      (if eqb tag exclude || eqb tag (codes "latest")
        then best
        else consider best tag (parse_version tag))
      tags

-- `hasLatest`: "latest" is listed and is not the excluded tag
unfoldable pub has_latest : Bytes → List Bytes → Bool
has_latest exclude [] = false
has_latest exclude (tag ∷ tags) =
    (not (eqb tag exclude) && eqb tag (codes "latest")) || has_latest exclude tags

abbrev pub tag_or : Best → Bytes → Bytes
tag_or none rest = rest
tag_or (some (tag, v)) rest = tag

-- the tag that stands in where no version is listed
unfoldable pub stand_in : Bytes → List Bytes → Bytes
unfolding has_latest
stand_in exclude tags =
    if has_latest exclude tags && not (eqb exclude (codes "latest")) then codes "latest" else []

unfoldable pub pick_newest : List Bytes → Bytes → Bytes
unfolding best_of stand_in
pick_newest tags exclude = tag_or (best_of exclude none tags) (stand_in exclude tags)
