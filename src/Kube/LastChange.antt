-- ===== src/Kube/LastChange.antt =====
-- setLastChangeAnnotation, with encoding/json for the schema `lastChange`: keys of a map in order,
-- strings with the escapes of the HTML-safe encoder. Bytes above 127 are left as they are.
use k8s_ai_remediator.Prelude.{
  ℕ, ◌+◌, ◌-◌, ◌/◌, ◌%◌, Bool, true, false, ◌||◌, ◌&&◌, Bytes, codes, ◌++◌, [], ◌∷◌, List, Map,
  insert, eqb, ltb, ◌==◌, if◌then◌else◌,
}
use k8s_ai_remediator.Text.{join}
use k8s_ai_remediator.Cluster.{Deployment}

unfoldable pub last_change_annotation : Bytes
last_change_annotation = codes "ai-remediator/last-change"

abbrev hex : ℕ → ℕ
hex d = if ltb d 10 then b'0' + d else b'a' + (d - 10)

json_byte : ℕ → Bytes
json_byte c =
    if c == b'"' || c == b'\\'
    then b'\\' ∷ c ∷ []
    else if c == 8
    then codes "\\b"
    else if c == 12
    then codes "\\f"
    else if c == 10
    then codes "\\n"
    else if c == 13
    then codes "\\r"
    else if c == 9
    then codes "\\t"
    else if ltb c 32 || c == b'<' || c == b'>' || c == b'&'
    then codes "\\u00" ++ (hex (c / 16) ∷ hex (c % 16) ∷ [])
    else c ∷ []

json_body : Bytes → Bytes
unfolding json_byte
json_body [] = []
json_body (c ∷ s) = json_byte c ++ json_body s

unfoldable pub json_string : Bytes → Bytes
unfolding json_body
json_string s = (b'"' ∷ json_body s) ++ b'"' ∷ []

-- strings in Go's order
unfoldable pub less_bytes : Bytes → Bytes → Bool
less_bytes [] [] = false
less_bytes [] (d ∷ t) = true
less_bytes (c ∷ s) [] = false
less_bytes (c ∷ s) (d ∷ t) = ltb c d || (c == d && less_bytes s t)

abbrev Entry : Type 0
Entry = Bytes × Bytes

insert_sorted : Entry → Map Bytes → Map Bytes
unfolding less_bytes
insert_sorted (k, v) [] = (k, v) ∷ []
insert_sorted (k, v) ((j, w) ∷ m) =
    if less_bytes k j then (k, v) ∷ (j, w) ∷ m else (j, w) ∷ insert_sorted (k, v) m

sorted : Map Bytes → Map Bytes
unfolding insert_sorted
sorted [] = []
sorted (e ∷ m) = insert_sorted e (sorted m)

fields : Map Bytes → List Bytes
fields [] = []
fields ((k, v) ∷ m) = (json_string k ++ (b':' ∷ json_string v)) ∷ fields m

unfoldable pub marshal_last_change : Bytes → Bytes → Map Bytes → Bytes → Bytes
unfolding json_string sorted fields join
marshal_last_change action container previous at =
    codes "{\"action\":"
    ++ (json_string action
        ++ ((if eqb container [] then [] else codes ",\"container\":" ++ json_string container)
            ++ (codes ",\"previous\":{"
                ++ (join (codes ",") (fields (sorted previous))
                    ++ (codes "},\"at\":" ++ (json_string at ++ codes "}"))))))

unfoldable pub set_last_change_annotation :
    Deployment → Bytes → Bytes → Map Bytes → Bytes → Deployment
unfolding last_change_annotation
set_last_change_annotation dep action container previous at = record dep {
  annotations =
      insert last_change_annotation (marshal_last_change action container previous at)
        dep.annotations;
}
