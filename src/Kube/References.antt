-- ===== src/Kube/References.antt =====
-- RetagImage and SwapRegistry: pure rewriting of image references.
use k8s_ai_remediator.Prelude.{
  ℕ, Bytes, codes, ◌++◌, [], ◌∷◌, Option, none, some, Bool, ◌||◌, ◌&&◌, not, ◌==◌, eqb,
  if◌then◌else◌,
}
use k8s_ai_remediator.Result.{Result, ok, fail}
use k8s_ai_remediator.Text.{trim_space, cut_first, has_byte}

-- the text before the first `b`, or the whole text: `if i := Index(s, b); i >= 0 { s = s[:i] }`
unfoldable pub before_byte : ℕ → Bytes → Bytes
before_byte b [] = []
before_byte b (c ∷ s) = let rest = before_byte b s in if c == b then [] else c ∷ rest

-- The reference without its tag: cut at the last ':' if that stands behind the last '/'.
unfoldable pub drop_tag : Bytes → Bytes
drop_tag [] = []
drop_tag (c ∷ s) =
    let rest = drop_tag s in
    if c == b':' && not (has_byte b':' s) && not (has_byte b'/' s) then [] else c ∷ rest

unfoldable pub retag_image : Bytes → Bytes → Result Bytes
unfolding before_byte drop_tag has_byte
retag_image raw_image raw_tag =
    let image = trim_space raw_image in
    let new_tag = trim_space raw_tag in
    let bare = drop_tag (before_byte b'@' image) in
    if eqb image []
    then fail (codes "image is empty")
    else if eqb new_tag []
    then fail (codes "new tag is empty")
    else if eqb bare []
    then fail (codes "image reference has no name")
    else ok (bare ++ (b':' ∷ new_tag))

-- strings.TrimRight(s, "/")
unfoldable pub trim_right_slashes : Bytes → Bytes
trim_right_slashes [] = []
trim_right_slashes (c ∷ s) =
    let rest = trim_right_slashes s in if c == b'/' && eqb rest [] then [] else c ∷ rest

-- a first segment that names a registry: it holds '.' or ':', or is "localhost"
unfoldable pub looks_like_host : Bytes → Bool
unfolding has_byte
looks_like_host first =
    (has_byte b'.' first || has_byte b':' first) || eqb first (codes "localhost")

-- the part behind the registry, if the reference names one
unfoldable pub explicit_path : Bytes → Option Bytes
unfolding looks_like_host cut_first
explicit_path image = elim (cut_first b'/' image) [
  | none ↦ none
  | some (first, rest) ↦ if not (eqb rest []) && looks_like_host first then some rest else none
]

abbrev pub or_whole : Bytes → Option Bytes → Bytes
or_whole image none = image
or_whole image (some rest) = rest

unfoldable pub swap_registry : Bytes → Bytes → Result Bytes
unfolding explicit_path trim_right_slashes
swap_registry raw_image raw_registry =
    let image = trim_space raw_image in
    let new_registry = trim_space (trim_right_slashes raw_registry) in
    if eqb image []
    then fail (codes "image is empty")
    else if eqb new_registry []
    then fail (codes "new_registry is empty")
    else ok (new_registry ++ (b'/' ∷ or_whole image (explicit_path image)))
