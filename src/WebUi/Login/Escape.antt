-- ===== src/WebUi/Login/Escape.antt =====
-- urlQueryEscape of internal/webui/auth.go, with a decoder of percent escapes beside it, and
-- sanitiseNext of login.go.
use k8s_ai_remediator.Prelude.{
  ℕ, ◌+◌, ◌-◌, ◌*◌, ◌/◌, ◌%◌, ◌<◌, ◌≡◌, ◌≢◌, refl, true, false, [], ◌∷◌, ◌++◌, Bytes, codes, All,
  ltb, ◌==◌, arith, if◌then◌else◌, eqb_sound, Bool-cases, inl, inr, ap, ◌∙◌,
}
use k8s_ai_remediator.Text.{trim_space, has_prefix}
use k8s_ai_remediator.WebUi.Login.{
  hex_upper, is_unreserved, escape_byte, url_query_escape, sanitise_next,
}

abbrev digit_value : ℕ → ℕ
digit_value c = if ltb c b'A' then c - b'0' else c - b'A' + 10

-- the bytes that a text with percent escapes stands for
unfoldable pub percent_decode : Bytes → Bytes
percent_decode [] = []
percent_decode (c ∷ []) = c ∷ []
percent_decode (c ∷ d ∷ []) = c ∷ d ∷ []
percent_decode (c ∷ d ∷ e ∷ s) =
    let plain = percent_decode (d ∷ e ∷ s) in
    let rest = percent_decode s in
    if c == b'%' then (digit_value d * 16 + digit_value e) ∷ rest else c ∷ plain

percent_decode_plain :
    (c : ℕ) (s : Bytes) → c ≢ b'%' → percent_decode (c ∷ s) ≡ c ∷ percent_decode s
unfolding percent_decode
percent_decode_plain c [] h = refl
percent_decode_plain c (d ∷ []) h = refl
percent_decode_plain c (d ∷ e ∷ s) h = ground arith

digit_value-hex_upper : (d : ℕ) → d < 16 → digit_value (hex_upper d) ≡ d
digit_value-hex_upper d h = ground arith

percent_decode-escape_byte :
    (c : ℕ) (s : Bytes) → c < 256 → percent_decode (escape_byte c ++ s) ≡ c ∷ percent_decode s
unfolding percent_decode
percent_decode-escape_byte c s h = elim (Bool-cases (is_unreserved c)) [
  | inl kept ↦ rw kept (percent_decode_plain c s (ground arith))
  | inr hidden ↦
      rw
        (
          hidden,
          percent_decode,
          digit_value-hex_upper (c / 16) (omega arith),
          digit_value-hex_upper (c % 16) (omega arith),
        )
        (ap (λ x. x ∷ percent_decode s) (omega arith))
]

-- A text of bytes is read back from its escaped form.
pub percent_decode-url_query_escape :
    (s : Bytes) → All (λ c. c < 256) s → percent_decode (url_query_escape s) ≡ s
unfolding url_query_escape
percent_decode-url_query_escape [] h = unfold percent_decode in refl
percent_decode-url_query_escape (c ∷ s) h =
    percent_decode-escape_byte c (url_query_escape s) h.0
    ∙ ap (◌∷◌ c) (percent_decode-url_query_escape s h.1)

-- The target of a redirect after the login starts with one slash and not with two, and it is the
-- requested target without outer blanks whenever that does so too.
pub sanitise_next-has_prefix :
    (s : Bytes)
    → (has_prefix (codes "/") (sanitise_next s) ≡ true)
      × (has_prefix (codes "//") (sanitise_next s) ≡ false)
      × (has_prefix (codes "/") (trim_space s) ≡ true
          → has_prefix (codes "//") (trim_space s) ≡ false
          → sanitise_next s ≡ trim_space s)
unfolding sanitise_next
sanitise_next-has_prefix s =
    unfold has_prefix in
    (ground (arith), ground (arith), ground (arith, eqb_sound (trim_space s) []))
