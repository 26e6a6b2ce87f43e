-- ===== src/Registry/Failover.antt =====
-- Failover between regions: SelectRegion and EvaluateRegion of pkg/runtime/region.go.
use mathlib.Core.List.{Memᴰ}
use fgoths_framework.Prelude.{
  ◌≡◌, ◌≢◌, ◌⊎◌, inl, inr, refl, sym, ap, ◌∙◌, subst, true, false, not, ◌&&◌, List, [], ◌∷◌, none,
  some, arith, if◌then◌else◌, Bool-cases, Option-cases, Visits,
}
use fgoths_framework.Prelude.Text.{Str, str_eq, str_eq_iff, trim_space}
use fgoths_framework.Prelude.Maps.{Map, lookup}
use fgoths_framework.Registry.State.{RegionConfig, RouteRegistry}
use fgoths_framework.Registry.Regions.{
  RegionMetrics, RegionDecision, failover, is_available, find_fallback, or_else, select_region,
  is_degraded, evaluate_primary, evaluate_region, choose,
}

-- An available region that the loop may return in place of the one named.
pub record IsFallback (name : Str) (m : List (Str × RegionConfig)) (c : RegionConfig) : Type 0 where
  pub member : (k : Str) × Memᴰ (k, c) m
  pub available : is_available c ≡ true
  pub differs : c.name ≢ name

find_fallback-IsFallback :
    (name : Str) (m : List (Str × RegionConfig)) (c : RegionConfig)
    → find_fallback name m ≡ some c
    → IsFallback name m c
unfolding find_fallback
find_fallback-IsFallback name [] c e = absurd (ground arith)
find_fallback-IsFallback name ((k, region) ∷ m) c e =
    elim (Bool-cases (is_available region && not (str_eq region.name name))) [
      | inl here ↦
          let same : region ≡ c = ground arith in
          subst (IsFallback name ((k, region) ∷ m)) same (record {
            member = (k, Memᴰ.head refl);
            available = ground arith;
            differs = λ q. ground (arith, str_eq_iff region.name name);
          })
      | inr later ↦
          let ih = find_fallback-IsFallback name m c (ground arith) in
          record {
            member = (ih.member.0, Memᴰ.tail ih.member.1);
            available = ih.available;
            differs = ih.differs;
          }
    ]

find_fallback-none :
    (name : Str) (m : List (Str × RegionConfig)) (k : Str) (c : RegionConfig)
    → find_fallback name m ≡ none
    → Memᴰ (k, c) m
    → is_available c ≡ true
    → c.name ≡ name
unfolding find_fallback
find_fallback-none name [] k c e t a = elim t [ ]
find_fallback-none name ((j, region) ∷ m) k c e (Memᴰ.head q) a =
    let same : c ≡ region = ap (λ x. x.1) q in
    ap (λ x. x.name) same ∙ ground (arith, str_eq_iff region.name name, same, a)
find_fallback-none name ((j, region) ∷ m) k c e (Memᴰ.tail t) a =
    find_fallback-none name m k c (ground arith) t a

-- What EvaluateRegion decides about the region stored for a name.
pub data IsRegionDecision (r : RouteRegistry) (name : Str) (m : RegionMetrics)
    (primary : RegionConfig) (d : RegionDecision) : Type 0 where
  stay :
      d.name ≡ primary.name
      → d.target ≡ primary.target
      → d.allow ≡ primary.healthy
      → (is_degraded m ≡ true
          → (k : Str) (c : RegionConfig) → Memᴰ (k, c) r.regions
          → is_available c ≡ true
          → c.name ≡ name)
      → IsRegionDecision r name m primary d
  fail_over :
      (c : RegionConfig)
      → is_degraded m ≡ true
      → IsFallback name r.regions c
      → d ≡ choose c true failover
      → IsRegionDecision r name m primary d

module _ (order : Map RegionConfig → List (Str × RegionConfig))
    (iterates : (m : Map RegionConfig) → Visits (order m) m) where
  in_registry :
      (name : Str) (r : RouteRegistry) (c : RegionConfig)
      → find_fallback name (order r.regions) ≡ some c
      → IsFallback name r.regions c
  in_registry name r c e =
      let found = find_fallback-IsFallback name (order r.regions) c e in
      record {
        member = (found.member.0, (iterates r.regions (found.member.0, c)).0 found.member.1);
        available = found.available;
        differs = found.differs;
      }

  evaluate_primary-IsRegionDecision :
      (name : Str) (primary : RegionConfig) (m : RegionMetrics) (r : RouteRegistry)
      → IsRegionDecision r name m primary (evaluate_primary order name primary m r)
  unfolding evaluate_primary
  evaluate_primary-IsRegionDecision name primary m r = elim (Bool-cases (is_degraded m)) [
    | inr fine ↦
        IsRegionDecision.stay (ground arith) (ground arith) (ground arith) (λ h. ground arith)
    | inl bad ↦ elim (Option-cases (find_fallback name (order r.regions))) [
      | inl nothing ↦
          IsRegionDecision.stay (ground arith) (ground arith) (ground arith) (λ h k c t a.
            find_fallback-none name (order r.regions) k c nothing ((iterates r.regions (k, c)).1 t)
              a)
      | inr (c, found) ↦
          IsRegionDecision.fail_over c bad (in_registry name r c found) (ground arith)
    ]
  ]

  -- EvaluateRegion decides only about a registered region that is enabled, found under the trimmed
  -- argument. Either it fails over, under bad metrics, to a registered region that is enabled and
  -- healthy and whose name differs from the argument as given, before trimming; or it keeps the region,
  -- allowed if that is healthy, and under bad metrics only if every available region has the argument
  -- as given for its name. For an argument with spaces around the name, the region that it fails over
  -- to may be the one found.
  pub evaluate_region-IsRegionDecision :
      (name : Str) (m : RegionMetrics) (r : RouteRegistry) (d : RegionDecision)
      → evaluate_region order name m r ≡ some d
      → (primary : RegionConfig) × (lookup (trim_space name) r.regions ≡ some primary)
        × (primary.enabled ≡ true)
        × IsRegionDecision r name m primary d
  unfolding evaluate_region
  evaluate_region-IsRegionDecision name m r d e =
      elim (Option-cases (lookup (trim_space name) r.regions)) [
        | inl gone ↦ absurd (ground arith)
        | inr (primary, h) ↦
            let same : evaluate_primary order name primary m r ≡ d = ground arith in
            (
              primary,
              h,
              ground arith,
              subst (IsRegionDecision r name m primary) same
                  (evaluate_primary-IsRegionDecision name primary m r),
            )
      ]

  -- What SelectRegion returns is enabled and healthy, unless no other region stands in: then it is the
  -- region stored for the name, and every available region has the argument for its name.
  select_region-available :
      (name : Str) (r : RouteRegistry) (c : RegionConfig)
      → select_region order name r ≡ some c
      → (is_available c ≡ true)
        ⊎ ((lookup (trim_space name) r.regions ≡ some c)
            × ((k : Str) (other : RegionConfig)
                → Memᴰ (k, other) r.regions
                → is_available other ≡ true
                → other.name ≡ name))
  unfolding select_region or_else
  select_region-available name r c e = elim (Option-cases (find_fallback name (order r.regions))) [
    | inr (fb, found) ↦
        let stands_in = (in_registry name r fb found).available in
        inl (elim (Option-cases (lookup (trim_space name) r.regions)) [
          | inl gone ↦
              let same : fb ≡ c = ground arith in subst (λ x. is_available x ≡ true) same stands_in
          | inr (primary, h) ↦ chosen primary fb stands_in (ground arith)
        ])
    | inl nothing ↦ elim (Option-cases (lookup (trim_space name) r.regions)) [
      | inl gone ↦ absurd (ground arith)
      | inr (primary, h) ↦
          let same : primary ≡ c = ground arith in
          inr (
            h ∙ ap some same,
            λ k o t a.
                find_fallback-none name (order r.regions) k o nothing
                  ((iterates r.regions (k, o)).1 t) a,
          )
    ]
  ]
    where
      chosen :
          (primary fb : RegionConfig)
          → is_available fb ≡ true
          → (if is_available primary then some primary else some fb) ≡ some c
          → is_available c ≡ true
      chosen primary fb well h = elim (Bool-cases (is_available primary)) [
        | inl here ↦
            let same : primary ≡ c = ground arith in subst (λ x. is_available x ≡ true) same here
        | inr ill ↦ let same : fb ≡ c = ground arith in subst (λ x. is_available x ≡ true) same well
      ]

  -- A name with spaces around it, which stands for a region that is available but degraded: if Go
  -- visits that region first, the failover of EvaluateRegion leads to the same region.
  evaluate_region_padded :
      (name : Str) (m : RegionMetrics) (r : RouteRegistry) (primary : RegionConfig)
      (rest : List (Str × RegionConfig))
      → name ≢ trim_space name
      → lookup (trim_space name) r.regions ≡ some primary
      → primary.name ≡ trim_space name
      → is_available primary ≡ true
      → is_degraded m ≡ true
      → order r.regions ≡ (trim_space name, primary) ∷ rest
      → evaluate_region order name m r ≡ some (choose primary true failover)
  unfolding evaluate_region evaluate_primary find_fallback
  evaluate_region_padded name m r primary rest padded h named well bad first =
      let differs : primary.name ≢ name = λ q. padded (sym q ∙ named) in
      let other : str_eq primary.name name ≡ false =
        ground (arith, str_eq_iff primary.name name, differs) in
      let found : find_fallback name ((trim_space name, primary) ∷ rest) ≡ some primary =
        ground arith in
      let back : find_fallback name (order r.regions) ≡ some primary =
        ap (find_fallback name) first ∙ found in
      ground arith
