-- ===== src/Registry.antt =====
-- internal/registry/registry.go: references, version-like tags and the choice of the newest one.
-- The HTTP exchange of listTags is one call to the environment.
pub mod Newest
mod Order
mod Versions
unfoldable pub use Versions.*
use k8s_ai_remediator.Prelude.{
  Bytes, codes, ◌++◌, List, [], ◌∷◌, Option, none, some, Bool, true, false, not, ◌||◌, ◌&&◌, ◌==◌,
  eqb, length, if◌then◌else◌,
}
use k8s_ai_remediator.Result.{Result, ok, err, fail, errorf}
use k8s_ai_remediator.Text.{trim_space, has_byte, cut_first}
use k8s_ai_remediator.Text.Numbers.{quote, decimal}
use k8s_ai_remediator.Effects.{Prog, ret, ask, list_tags, ◌>>=◌, on_ok}
use k8s_ai_remediator.Kube.References.{before_byte, drop_tag, looks_like_host}

pub record Reference : Type 0 where
  pub host : Bytes
  pub repo : Bytes
  pub tag : Bytes

-- the text behind the last ':' if that stands behind the last '/'
unfoldable pub tag_of : Bytes → Bytes
unfolding has_byte
tag_of [] = []
tag_of (c ∷ s) =
    let rest = tag_of s in
    if c == b':' && not (has_byte b':' s) && not (has_byte b'/' s) then s else rest

unfoldable pub docker_hub_host : Bytes
docker_hub_host = codes "registry-1.docker.io"

-- the host and the path that the name itself gives
unfoldable pub split_host : Bytes → Bytes × Bytes
unfolding cut_first looks_like_host docker_hub_host
split_host image = elim (cut_first b'/' image) [
  | none ↦ (docker_hub_host, image)
  | some (first, rest) ↦
      if not (eqb rest []) && looks_like_host first then (first, rest) else (docker_hub_host, image)
]

-- docker.io and its index stand for the hub's API host
unfoldable pub canonical_host : Bytes → Bytes
unfolding docker_hub_host
canonical_host host =
    if eqb host (codes "docker.io") || eqb host (codes "index.docker.io")
    then docker_hub_host
    else host

-- the hub's single-segment names live under library/
unfoldable pub canonical_repo : Bytes → Bytes → Bytes
unfolding docker_hub_host has_byte
canonical_repo host repo =
    if eqb host docker_hub_host && not (has_byte b'/' repo) then codes "library/" ++ repo else repo

unfoldable pub parse_ref : Bytes → Result Reference
unfolding before_byte drop_tag tag_of split_host canonical_host canonical_repo
parse_ref raw =
    let image = before_byte b'@' (trim_space raw) in
    let (host, repo) = split_host (drop_tag image) in
    let full = canonical_repo (canonical_host host) repo in
    if eqb (trim_space raw) []
    then fail (codes "image is empty")
    else if eqb full []
    then fail (codes "image reference " ++ (quote (drop_tag image) ++ codes " has no repository"))
    else ok (record { host = canonical_host host; repo = full; tag = tag_of image })

abbrev at_host : Bytes → Bytes → Bytes
at_host host text = codes "registry " ++ (host ++ (codes ": " ++ text))

abbrev or_no_candidate : Reference → List Bytes → Bytes → Result Bytes
or_no_candidate ref tags tag =
    if eqb tag []
    then fail (
        at_host ref.host (
          codes "no candidate tag among "
          ++ (decimal (length tags) ++ (codes " tags of " ++ ref.repo))))
    else ok tag

unfoldable pub newest_tag : Bytes → Prog (Result Bytes)
newest_tag image =
    on_ok (parse_ref image)
      (λ ref. do
        listed ← ask (list_tags ref.host ref.repo)
        on_ok listed (λ tags. ret (or_no_candidate ref tags (pick_newest tags ref.tag)))
            (λ e. ret (err (record e { text = at_host ref.host e.text }))))
      (λ e. ret (err e))
