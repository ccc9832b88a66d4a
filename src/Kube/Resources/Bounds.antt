-- ===== src/Kube/Resources/Bounds.antt =====
-- Bounds of the quantities of PatchDeploymentResources (internal/kube/kube.go).
use k8s_ai_remediator.Prelude.{
  ◌≡◌, refl, arith, ap, sym, ◌∙◌, Bytes, codes, Map, at, [], Bool, Option, none, some, true, false,
  if◌then◌else◌, subst, ◌⊎◌, inl, inr, eqb, Bool-cases,
}
use k8s_ai_remediator.Result.{Result, ok, err, ok_inj, ok-bind, fail}
use k8s_ai_remediator.Text.{trim_space}
use k8s_ai_remediator.Cluster.{
  Quantity, Container, quantity_lt, max_cpu_quantity, max_memory_quantity, min_cpu_quantity,
  min_memory_quantity,
}
use k8s_ai_remediator.Kube.External.{External}
use k8s_ai_remediator.Kube.Resources.{
  quantity_param, parse_quantity_in_range, set_quantities, override, exceeds, check_limits,
  labelled,
}

-- a quantity that was parsed from the text and lies between the bounds
pub record IsWithin (x : External) (text : Bytes) (min max q : Quantity) : Type 0 where
  pub parsed : x.parse_quantity (trim_space text) ≡ ok q
  pub not_below : quantity_lt q min ≡ false
  pub not_above : quantity_lt max q ≡ false

-- A parameter that is blank leaves the quantity; any other sets it, within its bounds.
abbrev pub IsQuantityPatch :
    External → Map Bytes → Bytes → Quantity → Quantity → Option Quantity → Option Quantity → Type 0
IsQuantityPatch x params key min max old new =
    ((eqb (trim_space (at key params)) [] ≡ true) × (new ≡ old))
    ⊎ ((q : Quantity) × (new ≡ some q) × IsWithin x (trim_space (at key params)) min max q)

parse_quantity_in_range-IsWithin :
    (x : External) (raw : Bytes) (min max q : Quantity)
    → parse_quantity_in_range x raw min max ≡ ok q
    → IsWithin x raw min max q
unfolding parse_quantity_in_range
parse_quantity_in_range-IsWithin x raw min max q h = record {
  parsed = ground (arith, h);
  not_below = ground (arith, h);
  not_above = ground (arith, h);
}

labelled-ok :
    (key : Bytes) (r : Result Quantity) (o : Option Quantity)
    → labelled key r ≡ ok o
    → (q : Quantity) × (r ≡ ok q) × (o ≡ some q)
labelled-ok key (ok q) o h = (q, refl, sym (ok_inj h))
labelled-ok key (err e) o h = absurd (cc h)

quantity_param-IsQuantityPatch :
    (x : External) (params : Map Bytes) (key : Bytes) (min max : Quantity) (old o : Option Quantity)
    → quantity_param x params key min max ≡ ok o
    → IsQuantityPatch x params key min max old (override old o)
unfolding quantity_param
quantity_param-IsQuantityPatch x params key min max old o h =
    let text = trim_space (at key params) in
    elim (Bool-cases (eqb text [])) [
      | inl blank ↦ inl (
        blank,
        ap (override old) (
            sym (
              ok_inj (
                ap
                  (λ b.
                    if b then ok none else labelled key (parse_quantity_in_range x text min max))
                  (sym blank)
                ∙ h))),
      )
      | inr given ↦
          let (q, parsed, is_q) = labelled-ok key _ o (
            ap (λ b. if b then ok none else labelled key (parse_quantity_in_range x text min max))
              (sym given)
            ∙ h) in
          inr (
            q,
            ap (override old) is_q,
            parse_quantity_in_range-IsWithin x (trim_space (at key params)) min max q parsed,
          )
    ]

abbrev with_quantities :
    Container → Option Quantity → Option Quantity → Option Quantity → Option Quantity → Container
with_quantities c cpu_request memory_request cpu_limit memory_limit = record c {
  cpu_request = override c.cpu_request cpu_request;
  memory_request = override c.memory_request memory_request;
  cpu_limit = override c.cpu_limit cpu_limit;
  memory_limit = override c.memory_limit memory_limit;
}

-- what a patch of the resources does to a container
pub record IsResourcePatch (x : External) (params : Map Bytes) (c c' : Container) : Type 0 where
  pub cpu_request :
      IsQuantityPatch x params
        (codes "cpu_request")
        min_cpu_quantity
        max_cpu_quantity
        c.cpu_request
        c'.cpu_request
  pub memory_request :
      IsQuantityPatch x params
        (codes "memory_request")
        min_memory_quantity
        max_memory_quantity
        c.memory_request
        c'.memory_request
  pub cpu_limit :
      IsQuantityPatch x params
        (codes "cpu_limit")
        min_cpu_quantity
        max_cpu_quantity
        c.cpu_limit
        c'.cpu_limit
  pub memory_limit :
      IsQuantityPatch x params
        (codes "memory_limit")
        min_memory_quantity
        max_memory_quantity
        c.memory_limit
        c'.memory_limit
  pub cpu_fits : exceeds c'.cpu_request c'.cpu_limit ≡ false
  pub memory_fits : exceeds c'.memory_request c'.memory_limit ≡ false
  pub name : c'.name ≡ c.name
  pub image : c'.image ≡ c.image
  pub readiness : c'.readiness ≡ c.readiness
  pub liveness : c'.liveness ≡ c.liveness

check_limits-ok :
    (c c' : Container)
    → check_limits c ≡ ok c'
    → (c ≡ c')
      × (exceeds c.cpu_request c.cpu_limit ≡ false)
      × (exceeds c.memory_request c.memory_limit ≡ false)
unfolding check_limits
check_limits-ok c c' h = (ground (arith, h), ground (arith, h), ground (arith, h))

unless_failed :
    (b : Bool) (message : Bytes) (r : Result Container) (c' : Container)
    → (if b then fail message else r) ≡ ok c'
    → r ≡ ok c'
unless_failed true message r c' h = absurd (cc h)
unless_failed false message r c' h = h

-- Where the four parameters are accepted, each quantity that is given is the parsed one and within
-- its bounds, each blank one is as it was, no request that is set exceeds a limit that is set, and
-- the rest of the container is unchanged.
pub set_quantities-IsResourcePatch :
    (x : External) (params : Map Bytes) (c c' : Container)
    → set_quantities x params c ≡ ok c'
    → IsResourcePatch x params c c'
unfolding set_quantities
set_quantities-IsResourcePatch x params c c' h =
    let (cr, is_cr, h1) = ok-bind _ _ c' h in
    let (mr, is_mr, h2) = ok-bind _ _ c' h1 in
    let (cl, is_cl, h3) = ok-bind _ _ c' h2 in
    let (ml, is_ml, h4) = ok-bind _ _ c' h3 in
    let (is_c', cpu_fits, memory_fits) =
      check_limits-ok (with_quantities c cr mr cl ml) c' (unless_failed _ _ _ c' h4) in
    subst (IsResourcePatch x params c) is_c' (record {
      cpu_request = quantity_param-IsQuantityPatch x params _ _ _ c.cpu_request cr is_cr;
      memory_request = quantity_param-IsQuantityPatch x params _ _ _ c.memory_request mr is_mr;
      cpu_limit = quantity_param-IsQuantityPatch x params _ _ _ c.cpu_limit cl is_cl;
      memory_limit = quantity_param-IsQuantityPatch x params _ _ _ c.memory_limit ml is_ml;
      cpu_fits = cpu_fits;
      memory_fits = memory_fits;
      name = refl;
      image = refl;
      readiness = refl;
      liveness = refl;
    })
