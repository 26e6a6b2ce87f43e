-- ===== src/Plans/Tests.antt =====
-- Runs of the plans of pkg/runtime/governance.go, and the theorems at concrete inputs.
use mathlib.Core.List.{Memᴰ}
use fgoths_framework.Prelude.{
  ◌≡◌, ◌≢◌, ◌↔◌, refl, arith, Bool, true, false, List, [], ◌∷◌, some, none, is_some, is_empty,
  if◌then◌else◌,
}
use fgoths_framework.Prelude.Int.{pos}
use fgoths_framework.Prelude.Float.{float}
use fgoths_framework.Prelude.Text.{Str, codes, str_eq, trim_space, text_functions}
use fgoths_framework.Prelude.Maps.{map_functions}
use fgoths_framework.Registry.State.{RouteConfig, new_slo_policy}
use fgoths_framework.Governance.Gate.{ApprovalGate, is_approved}
use fgoths_framework.Plans.Artifacts.{
  ArtifactProvenance, new_artifact_provenance, set_content, sign, verify, signature_mismatch,
}
use fgoths_framework.Plans.Release.{
  ReleasePlan, prod_allowlists, new_release_plan, new_rollback_plan, plan_error, validate_plan,
  new_compliance_report,
}
use fgoths_framework.Plans.Promotion.{
  PromotionPlan, new_promotion_plan, fill_promotion, stage_error, promotion_error,
  validate_promotion,
}
use fgoths_framework.Plans.Diff.{
  RouteRegistrySnapshot, index_routes, is_same, route_changes, build_config_diff,
}
use fgoths_framework.Plans.Signing.{IsNamed, verify-sign_iff}
use fgoths_framework.Plans.Readiness.{IsReleasable, validate_plan_iff, compliant-without_verifying}
use fgoths_framework.Plans.Removed.{build_config_diff-removed}
use fgoths_framework.Plans.Stages.{IsApproved, IsStaged, validate_promotion-IsStaged}

plans : Unit {0}
unfolding text_functions map_functions new_slo_policy is_approved new_artifact_provenance
    set_content sign verify new_release_plan new_rollback_plan plan_error validate_plan
    new_compliance_report new_promotion_plan fill_promotion stage_error promotion_error
    validate_promotion index_routes is_same route_changes build_config_diff
plans = tt

-- Functions in the place of the hashes.
abbrev sha : Str → Str
sha s = b'#' ∷ []

abbrev tag : Bool → Str
tag true = codes "1"
tag false = codes "2"

abbrev mac : Str → Str → Str
mac secret s = tag (str_eq secret (codes "key"))

sha-IsNamed : IsNamed sha
unfolding plans
sha-IsNamed s = refl

abbrev artifact : ArtifactProvenance
artifact = record {
  name = codes "shop";
  version = codes "v1";
  digest = codes "#";
  signature = codes "1";
  source = codes "ci";
  content = codes "binary";
}

signed_artifact :
    sign mac
      (codes "key")
      (codes "ci")
      (set_content sha (codes "binary") (new_artifact_provenance (codes "shop") (codes "v1")))
    ≡ artifact
unfolding plans
signed_artifact = refl

verify-sign_iff_example :
    let signed = sign mac (codes "key") (codes "ci") (set_content sha (codes "binary") artifact) in
    (verify sha mac (codes "other") (set_content sha (codes "binary") signed) ≡ none) ↔ (
      (is_empty (trim_space (codes "binary")) ≡ false)
      × (mac (codes "other") (codes "binary") ≡ mac (codes "key") (codes "binary")))
verify-sign_iff_example =
    verify-sign_iff sha mac (codes "binary") (codes "binary") (codes "key") (codes "other")
      (codes "ci") artifact sha-IsNamed

abbrev gate : ApprovalGate
gate = record { name = codes "prod"; required = pos 1; approvals = codes "ann" ∷ [] }

abbrev plan : ReleasePlan
plan = record {
  environment = codes "prod";
  service = codes "shop";
  version = codes "v1";
  gate = some gate;
  artifact = some artifact;
  runbook = codes "book";
  slo = some (new_slo_policy (float 1 10) (pos 100) (float 1 10));
  rollback = some (new_rollback_plan [] [] []);
  approved_at = none;
}

validate_plan_iff_example :
    let after = validate_plan sha mac (codes "key") 7 plan in
    ((after.1 ≡ none) ↔ IsReleasable sha mac (codes "key") plan)
    × (after.0 ≡ (if is_some after.1 then plan else record plan { approved_at = some 7 }))
validate_plan_iff_example = validate_plan_iff sha mac (codes "key") 7 plan

mac-IsNamed : (s : Str) → IsNamed (mac s)
unfolding plans
mac-IsNamed s t = tag-IsNamed (str_eq s (codes "key"))
  where
    tag-IsNamed : (b : Bool) → is_empty (trim_space (tag b)) ≡ false
    tag-IsNamed true = refl
    tag-IsNamed false = refl

plan-IsReleasable : IsReleasable sha mac (codes "key") plan
unfolding plans
plan-IsReleasable = record {
  service = refl;
  gate = refl;
  artifact = (artifact, refl, refl);
  slo = refl;
  rollback = refl;
  runbook = refl;
}

abbrev forgery : ArtifactProvenance
forgery = record artifact { signature = codes "9" }

compliant-without_verifying_example :
    let forged = record plan { artifact = some forgery } in
    ((new_compliance_report plan).compliant ≡ true)
    × ((new_compliance_report forged).compliant ≡ true)
    × ((validate_plan sha mac (codes "key") 7 forged).1 ≢ none)
unfolding plans
compliant-without_verifying_example =
    compliant-without_verifying sha mac (codes "key") 7 plan forgery signature_mismatch mac-IsNamed
      plan-IsReleasable refl refl

-- A new promotion to "prod" has no allowlists yet.
abbrev promotion : PromotionPlan
promotion = record (new_promotion_plan [] [] (codes "shop") (codes "v1")) {
  gate = some gate;
  artifact = some artifact;
}

lists_required : (validate_promotion sha mac (codes "key") 7 promotion).1 ≡ some prod_allowlists
unfolding plans
lists_required = refl

abbrev listed : PromotionPlan
listed = record promotion {
  policy = record (promotion.policy) {
    allowed_tenants = codes "acme" ∷ [];
    allowed_regions = codes "eu" ∷ [];
  };
}

validate_promotion-IsStaged_example :
    IsApproved sha mac (codes "key") listed
    × IsStaged (validate_promotion sha mac (codes "key") 7 listed).0
unfolding plans
validate_promotion-IsStaged_example =
    validate_promotion-IsStaged sha mac (codes "key") 7 listed refl

abbrev route : Str → RouteConfig
route name = record {
  name = name;
  method = codes "GET";
  path = codes "/";
  target = codes "http://a";
  upstream = [];
  weight = pos 1;
  tenant = [];
  enabled = true;
  headers = [];
}

abbrev snapshot : List RouteConfig → RouteRegistrySnapshot
snapshot routes = record { routes = routes; rolls = []; regions = []; tenants = [] }

different : codes "b" ≢ codes "a"
different e = ground (arith, e)

build_config_diff-removed_example :
    build_config_diff
      (snapshot (route (codes "a") ∷ route (codes "b") ∷ []))
      (snapshot (route (codes "b") ∷ []))
    ≡ record { has_changes = false; routes = [] }
build_config_diff-removed_example =
    build_config_diff-removed (snapshot (route (codes "a") ∷ route (codes "b") ∷ []))
      (snapshot (route (codes "b") ∷ [])) ((different, tt), (tt, tt))
      (Memᴰ.tail (Memᴰ.head refl), tt)
