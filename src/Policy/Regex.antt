-- ===== src/Policy/Regex.antt =====
-- Regular expressions for whole texts, matched by derivatives: the anchored patterns of the program.
use k8s_ai_remediator.Prelude.{
  ℕ, zero, suc, Bool, true, false, ◌&&◌, ◌||◌, [], ◌∷◌, Bytes, ◌==◌, if◌then◌else◌,
}

pub data Regex : Type 0 where
  void : Regex
  empty : Regex
  byte : (ℕ → Bool) → Regex
  alt : Regex → Regex → Regex
  seq : Regex → Regex → Regex
  star : Regex → Regex

nullable : Regex → Bool
nullable void = false
nullable empty = true
nullable (byte p) = false
nullable (alt r s) = nullable r || nullable s
nullable (seq r s) = nullable r && nullable s
nullable (star r) = true

-- what may follow the byte `c`
derive : ℕ → Regex → Regex
unfolding nullable
derive c void = void
derive c empty = void
derive c (byte p) = if p c then empty else void
derive c (alt r s) = alt (derive c r) (derive c s)
derive c (seq r s) =
    let first = seq (derive c r) s in
    let both = alt first (derive c s) in if nullable r then both else first
derive c (star r) = seq (derive c r) (star r)

unfoldable pub matches : Regex → Bytes → Bool
unfolding derive nullable
matches r [] = nullable r
matches r (c ∷ s) = matches (derive c r) s

abbrev pub literal : Bytes → Regex
literal [] = empty
literal (c ∷ s) = seq (byte (λ b. b == c)) (literal s)

abbrev pub optional : Regex → Regex
optional r = alt empty r

-- `r{0,n}`
abbrev pub at_most : ℕ → Regex → Regex
at_most zero r = empty
at_most (suc n) r = optional (seq r (at_most n r))

-- `r{n}`
abbrev pub exactly : ℕ → Regex → Regex
exactly zero r = empty
exactly (suc n) r = seq r (exactly n r)
