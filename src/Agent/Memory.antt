-- ===== src/Agent/Memory.antt =====
-- computeBumpedMemoryLimit, withOOMMemoryFloor and the other completions of resource parameters.
-- resource.MustParse of a quantity's own print is that quantity again.
pub mod Bounds
use k8s_ai_remediator.Prelude.{
  ℕ, suc, ◌*◌, ◌/◌, ◌%◌, ◌^◌, ◌-◌, Bytes, codes, List, [], Option, none, some, Bool, not, ◌||◌,
  ◌==◌, ltb, ℤ, pos, negsuc, Map, at, eqb, insert, get_elem?, if◌then◌else◌,
}
use k8s_ai_remediator.Result.{Result, ok, err}
use k8s_ai_remediator.Text.{trim_space}
use k8s_ai_remediator.Cluster.{Quantity, Container, quantity_lt, quantity_le, max_memory_quantity}
use k8s_ai_remediator.Effects.{Prog, ret, ask, get_deployment, ◌>>=◌, on_ok}
use k8s_ai_remediator.Kube.External.{External}
use k8s_ai_remediator.Kube.Containers.{find_index}

-- resource.MustParse("512Mi")
unfoldable pub memory_floor : Quantity
memory_floor = record { amount = pos (512 * 2 ^ 20 * 10 ^ 9); shown = codes "512Mi" }

abbrev from_word : ℕ → ℤ
from_word w = if ltb w (2 ^ 63) then pos w else negsuc (2 ^ 64 - 1 - w)

-- four times an int64, which wraps
unfoldable pub times_four : ℤ → ℤ
times_four (pos n) = from_word (n * 4 % 2 ^ 64)
times_four (negsuc n) = from_word ((2 ^ 64 - suc n % 2 ^ 64) * 4 % 2 ^ 64)

abbrev is_zero : Quantity → Bool
is_zero q = elim q.amount [ pos n ↦ n == 0 | negsuc n ↦ Bool.false ]

-- the target before the cap
unfoldable pub bumped_limit : External → Option Quantity → Quantity
unfolding times_four memory_floor
bumped_limit x none = memory_floor
bumped_limit x (some current) =
    let bumped = x.quantity_set current (times_four (x.quantity_value current)) in
    if is_zero current
    then memory_floor
    else if quantity_lt bumped memory_floor
    then memory_floor
    else bumped

unfoldable pub compute_bumped_memory_limit : External → Option Quantity → Quantity
unfolding bumped_limit max_memory_quantity
compute_bumped_memory_limit x current =
    let target = bumped_limit x current in
    if quantity_lt max_memory_quantity target then max_memory_quantity else target

-- the container named in the parameters, or the first one
unfoldable pub chosen_container : List Container → Bytes → Option Container
unfolding find_index
chosen_container cs raw =
    let name = trim_space raw in
    if eqb name [] then get_elem? cs 0 else elim (find_index (λ c. eqb c.name name) cs) [
      | some i ↦ get_elem? cs i
      | none ↦ get_elem? cs 0
    ]

abbrev memory_limit_of : Option Container → Option Quantity
memory_limit_of none = none
memory_limit_of (some c) = c.memory_limit

abbrev parsed : Result Quantity → Option Quantity
parsed (ok q) = some q
parsed (err e) = none

-- a limit that is given, parses, and is not below the floor
abbrev is_adequate : Quantity → Option Quantity → Bool
is_adequate floor none = Bool.false
is_adequate floor (some q) = quantity_le floor q

abbrev is_above : Quantity → Option Quantity → Bool
is_above floor none = Bool.false
is_above floor (some q) = quantity_lt floor q

abbrev half_of : ℤ → ℤ
half_of (pos n) = pos (n / 2)
half_of (negsuc n) = if n == 0 then pos 0 else negsuc (suc n / 2 - 1)

-- `params[key]` as a quantity; `none` where it is blank or does not parse
unfoldable pub given_quantity : External → Bytes → Map Bytes → Option Quantity
given_quantity x key params =
    let raw = trim_space (at key params) in
    if eqb raw [] then none else parsed (x.parse_quantity raw)

unfoldable pub raise_to_floor : External → Quantity → Map Bytes → Map Bytes
unfolding given_quantity
raise_to_floor x floor params =
    let out = insert (codes "memory_limit") floor.shown params in
    let half = x.quantity_set floor (half_of (x.quantity_value floor)) in
    if is_adequate floor (given_quantity x (codes "memory_limit") params)
    then params
    else if is_above floor (given_quantity x (codes "memory_request") out)
    then insert (codes "memory_request") half.shown out
    else out

unfoldable pub with_oom_memory_floor : External → Bytes → Bytes → Map Bytes → Prog (Map Bytes)
unfolding raise_to_floor chosen_container
with_oom_memory_floor x ns dep_name params = do
  got ← ask (get_deployment ns dep_name)
  on_ok got
      (λ dep.
        let c = chosen_container dep.containers (at (codes "container") params) in
        ret (raise_to_floor x (compute_bumped_memory_limit x (memory_limit_of c)) params))
      (λ e. ret params)

unfoldable pub has_resource_params : Map Bytes → Bool
has_resource_params params =
    not (eqb (trim_space (at (codes "cpu_request") params)) [])
    || not (eqb (trim_space (at (codes "memory_request") params)) [])
    || not (eqb (trim_space (at (codes "cpu_limit") params)) [])
    || not (eqb (trim_space (at (codes "memory_limit") params)) [])

unfoldable pub with_schedulable_resource_defaults : Map Bytes → Map Bytes
with_schedulable_resource_defaults params = insert (codes "memory_limit") (codes "256Mi") (
    insert (codes "cpu_limit") (codes "500m") (
      insert (codes "memory_request") (codes "64Mi")
        (insert (codes "cpu_request") (codes "100m") params)))
