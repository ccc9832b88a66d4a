-- ===== src/Policy/Image.antt =====
-- ValidateOCIImage and its pattern.
use k8s_ai_remediator.Prelude.{
  ℕ, ◌≡◌, ◌≢◌, refl, Bool, ◌||◌, ◌&&◌, not, [], ◌++◌, Option, none, some, Bytes, codes, ltb, leb,
  ◌==◌, eqb, length, if◌then◌else◌,
}
use k8s_ai_remediator.Result.{Error, errorf}
use k8s_ai_remediator.Text.{trim_space}
use k8s_ai_remediator.Policy.Regex.{
  Regex, byte, seq, star, matches, literal, optional, at_most, exactly,
}

is_between : ℕ → ℕ → ℕ → Bool
is_between lo hi c = leb lo c && leb c hi

is_alnum : ℕ → Bool
unfolding is_between
is_alnum c = is_between b'a' b'z' c || is_between b'A' b'Z' c || is_between b'0' b'9' c

is_host_byte : ℕ → Bool
unfolding is_alnum
is_host_byte c = is_alnum c || c == b'.' || c == b'_' || c == b'-'

is_name_byte : ℕ → Bool
unfolding is_host_byte
is_name_byte c = is_host_byte c || c == b'/'

is_word_byte : ℕ → Bool
unfolding is_alnum
is_word_byte c = is_alnum c || c == b'_'

is_hex_byte : ℕ → Bool
unfolding is_between
is_hex_byte c = is_between b'a' b'f' c || is_between b'A' b'F' c || is_between b'0' b'9' c

-- ociImageRe
oci_image_re : Regex
unfolding is_name_byte is_word_byte is_hex_byte
oci_image_re =
    let digit = byte (is_between b'0' b'9') in
    let port = seq (literal (codes ":")) (seq digit (star digit)) in
    let host = seq (byte is_alnum) (seq (star (byte is_host_byte)) (optional port)) in
    let name = seq (byte is_alnum) (star (byte is_name_byte)) in
    let tag =
      seq (literal (codes ":")) (seq (byte is_word_byte) (at_most 127 (byte is_host_byte))) in
    let digest = seq (literal (codes "@sha256:")) (exactly 64 (byte is_hex_byte)) in
    seq (optional (seq host (literal (codes "/"))))
      (seq name (seq (optional tag) (optional digest)))

pub validate_oci_image : Bytes → Option Error
unfolding oci_image_re
validate_oci_image raw =
    let image = trim_space raw in
    if eqb image []
    then some (errorf (codes "image is empty"))
    else if ltb 255 (length image)
    then some (errorf (codes "image reference exceeds 255 characters"))
    else if not (matches oci_image_re image)
    then some (errorf (codes "invalid OCI image reference: " ++ image))
    else none

validate_oci_image_port : validate_oci_image (codes "host.internal:5050/team/app:1.2-rc") ≡ none
unfolding validate_oci_image trim_space eqb matches
validate_oci_image_port = refl

validate_oci_image_space : validate_oci_image (codes "a b") ≢ none
unfolding validate_oci_image trim_space eqb matches
validate_oci_image_space e = cc
