-- ===== src/Policy/Prompt/Utf8.antt =====
-- The bytes of a literal: the UTF-8 encoding of its code points below 65536.
use Prim.Native.Char.{code}
use Prim.Native.String.{String}
use k8s_ai_remediator.Prelude.{ℕ, ◌+◌, ◌/◌, ◌%◌, [], ◌∷◌, ◌++◌, Bytes, ltb, if◌then◌else◌}

abbrev encode : ℕ → Bytes
encode c =
    if ltb c 128
    then c ∷ []
    else if ltb c 2048
    then (192 + c / 64) ∷ (128 + c % 64) ∷ []
    else (224 + c / 4096) ∷ (128 + c / 64 % 64) ∷ (128 + c % 64) ∷ []

pub line : String → Bytes
line String.[] = []
line (String.◌∷◌ c s) = encode (code c) ++ line s
