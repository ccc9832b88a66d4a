-- ===== src/Registry/Order.antt =====
-- The order of versions (internal/registry/registry.go).
use k8s_ai_remediator.Prelude.{◌≡◌, refl, subst, arith, ℕ, Bytes, List, [], ◌∷◌, Bool, true, false}
use k8s_ai_remediator.Kube.LastChange.{less_bytes}
use k8s_ai_remediator.Registry.Versions.{
  Version, Verdict, less, same, greater, verdict, compare_nums, suffix_less, version_less,
  by_verdict,
}

-- how two verdicts in a row determine the third
abbrev is_less : Verdict → Bool
is_less less = true
is_less _ = false

abbrev is_same : Verdict → Bool
is_same same = true
is_same _ = false

abbrev is_greater : Verdict → Bool
is_greater greater = true
is_greater _ = false

abbrev chain : Verdict → Verdict → Verdict → Bool
chain less less c = is_less c
chain less same c = is_less c
chain less greater c = true
chain same less c = is_less c
chain same same c = is_same c
chain same greater c = is_greater c
chain greater less c = true
chain greater same c = is_greater c
chain greater greater c = is_greater c

chain-first_less : (r : Verdict) → chain r less less ≡ true
chain-first_less less = refl
chain-first_less same = refl
chain-first_less greater = refl

chain-second_less : (r : Verdict) → chain less r less ≡ true
chain-second_less less = refl
chain-second_less same = refl
chain-second_less greater = refl

chain-first_greater : (r : Verdict) → chain r greater greater ≡ true
chain-first_greater less = refl
chain-first_greater same = refl
chain-first_greater greater = refl

chain-second_greater : (r : Verdict) → chain greater r greater ≡ true
chain-second_greater less = refl
chain-second_greater same = refl
chain-second_greater greater = refl

verdict-chain :
    (a b c : ℕ) (p q r : Verdict)
    → chain p q r ≡ true
    → chain (verdict a b p) (verdict b c q) (verdict a c r) ≡ true
verdict-chain a b c p q r h = ground (
  arith,
  h,
  chain-first_less p,
  chain-second_less q,
  chain-first_greater p,
  chain-second_greater q,
)

compare_nums-chain :
    (xs ys zs : List ℕ)
    → chain (compare_nums xs ys) (compare_nums ys zs) (compare_nums xs zs) ≡ true
unfolding compare_nums
compare_nums-chain [] [] [] = refl
compare_nums-chain [] [] (c ∷ zs) = verdict-chain 0 0 c same _ _ (compare_nums-chain [] [] zs)
compare_nums-chain [] (b ∷ ys) [] = verdict-chain 0 b 0 _ _ same (compare_nums-chain [] ys [])
compare_nums-chain [] (b ∷ ys) (c ∷ zs) = verdict-chain 0 b c _ _ _ (compare_nums-chain [] ys zs)
compare_nums-chain (a ∷ xs) [] [] = verdict-chain a 0 0 _ same _ (compare_nums-chain xs [] [])
compare_nums-chain (a ∷ xs) [] (c ∷ zs) = verdict-chain a 0 c _ _ _ (compare_nums-chain xs [] zs)
compare_nums-chain (a ∷ xs) (b ∷ ys) [] = verdict-chain a b 0 _ _ _ (compare_nums-chain xs ys [])
compare_nums-chain (a ∷ xs) (b ∷ ys) (c ∷ zs) =
    verdict-chain a b c _ _ _ (compare_nums-chain xs ys zs)

less_bytes-not_less :
    (s t u : Bytes) → less_bytes s t ≡ false → less_bytes t u ≡ false → less_bytes s u ≡ false
unfolding less_bytes
less_bytes-not_less [] [] [] h g = refl
less_bytes-not_less [] [] (e ∷ u) h g = g
less_bytes-not_less [] (d ∷ t) u h g = ground arith
less_bytes-not_less (c ∷ s) [] [] h g = refl
less_bytes-not_less (c ∷ s) [] (e ∷ u) h g = ground arith
less_bytes-not_less (c ∷ s) (d ∷ t) [] h g = refl
less_bytes-not_less (c ∷ s) (d ∷ t) (e ∷ u) h g = ground (arith, less_bytes-not_less s t u)

less_bytes_asym : (s t : Bytes) → less_bytes s t ≡ true → less_bytes t s ≡ false
unfolding less_bytes
less_bytes_asym [] [] h = refl
less_bytes_asym [] (d ∷ t) h = refl
less_bytes_asym (c ∷ s) [] h = ground arith
less_bytes_asym (c ∷ s) (d ∷ t) h = ground (arith, less_bytes_asym s t)

suffix_less-not_less :
    (s t u : Bytes) → suffix_less s t ≡ false → suffix_less t u ≡ false → suffix_less s u ≡ false
unfolding suffix_less
suffix_less-not_less [] t [] h g = refl
suffix_less-not_less [] t (e ∷ u) h g = refl
suffix_less-not_less (c ∷ s) [] u h g = ground arith
suffix_less-not_less (c ∷ s) (d ∷ t) [] h g = g
suffix_less-not_less (c ∷ s) (d ∷ t) (e ∷ u) h g = less_bytes-not_less (c ∷ s) (d ∷ t) (e ∷ u) h g

suffix_less_asym : (s t : Bytes) → suffix_less s t ≡ true → suffix_less t s ≡ false
unfolding suffix_less
suffix_less_asym [] [] h = refl
suffix_less_asym [] (d ∷ t) h = ground arith
suffix_less_asym (c ∷ s) [] h = refl
suffix_less_asym (c ∷ s) (d ∷ t) h = less_bytes_asym (c ∷ s) (d ∷ t) h

compare_nums_self : (xs : List ℕ) → compare_nums xs xs ≡ same
unfolding compare_nums
compare_nums_self [] = refl
compare_nums_self (a ∷ xs) = ground (arith, compare_nums_self xs)

by_verdict-not_less :
    (p q r : Verdict) (a b c : Bool)
    → chain p q r ≡ true
    → (a ≡ false → b ≡ false → c ≡ false)
    → by_verdict p a ≡ false
    → by_verdict q b ≡ false
    → by_verdict r c ≡ false
by_verdict-not_less less q r a b c h suffix f g = ground arith
by_verdict-not_less same less r a b c h suffix f g = ground arith
by_verdict-not_less same same less a b c h suffix f g = ground arith
by_verdict-not_less same same same a b c h suffix f g = suffix f g
by_verdict-not_less same same greater a b c h suffix f g = refl
by_verdict-not_less same greater less a b c h suffix f g = ground arith
by_verdict-not_less same greater same a b c h suffix f g = ground arith
by_verdict-not_less same greater greater a b c h suffix f g = refl
by_verdict-not_less greater less r a b c h suffix f g = ground arith
by_verdict-not_less greater same less a b c h suffix f g = ground arith
by_verdict-not_less greater same same a b c h suffix f g = ground arith
by_verdict-not_less greater same greater a b c h suffix f g = refl
by_verdict-not_less greater greater less a b c h suffix f g = ground arith
by_verdict-not_less greater greater same a b c h suffix f g = ground arith
by_verdict-not_less greater greater greater a b c h suffix f g = refl

by_verdict_asym :
    (p q : Verdict) (a b : Bool)
    → chain p q same ≡ true
    → (a ≡ true → b ≡ false)
    → by_verdict p a ≡ true
    → by_verdict q b ≡ false
by_verdict_asym less less a b h suffix f = ground arith
by_verdict_asym less same a b h suffix f = ground arith
by_verdict_asym less greater a b h suffix f = refl
by_verdict_asym same less a b h suffix f = ground arith
by_verdict_asym same same a b h suffix f = suffix f
by_verdict_asym same greater a b h suffix f = refl
by_verdict_asym greater q a b h suffix f = ground arith

pub version_less-not_less :
    (u v w : Version)
    → version_less u v ≡ false
    → version_less v w ≡ false
    → version_less u w ≡ false
unfolding version_less
version_less-not_less u v w =
    by_verdict-not_less (compare_nums u.nums v.nums) (compare_nums v.nums w.nums)
      (compare_nums u.nums w.nums) _ _ _ (compare_nums-chain u.nums v.nums w.nums)
      (suffix_less-not_less u.suffix v.suffix w.suffix)

pub version_less_asym : (u v : Version) → version_less u v ≡ true → version_less v u ≡ false
unfolding version_less
version_less_asym u v =
    by_verdict_asym (compare_nums u.nums v.nums) (compare_nums v.nums u.nums) _ _
      (subst (λ r. chain (compare_nums u.nums v.nums) (compare_nums v.nums u.nums) r ≡ true)
        (compare_nums_self u.nums) (compare_nums-chain u.nums v.nums u.nums))
      (suffix_less_asym u.suffix v.suffix)

less_bytes_self : (s : Bytes) → less_bytes s s ≡ false
unfolding less_bytes
less_bytes_self [] = refl
less_bytes_self (c ∷ s) = ground (arith, less_bytes_self s)

suffix_less_self : (s : Bytes) → suffix_less s s ≡ false
unfolding suffix_less less_bytes
suffix_less_self [] = refl
suffix_less_self (c ∷ s) = less_bytes_self (c ∷ s)

pub version_less_self : (v : Version) → version_less v v ≡ false
unfolding version_less
version_less_self v = rw (compare_nums_self v.nums) (suffix_less_self v.suffix)
