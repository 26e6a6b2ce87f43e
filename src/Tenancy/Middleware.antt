-- ===== src/Tenancy/Middleware.antt =====
-- RequireTenant, RequireTenantMatch and TenantQuotaMiddleware (pkg/runtime/tenant.go). A request is its
-- tenant in the context, "" if there is none, and the value of its tenant header. Instants and
-- durations are nanoseconds, instants since some start.
use fgoths_framework.Prelude.{
  ℕ, ◌+◌, ◌%◌, ◌^◌, Bool, true, false, not, ◌&&◌, List, [], ◌∷◌, ◌++◌, Option, none, some, is_empty,
  keep, length, ltb, leb, ◌==◌, ◌||◌, if◌then◌else◌,
}
use fgoths_framework.Prelude.Int.{ℤ, pos, pos_part, leb_ℤ}
use fgoths_framework.Prelude.Text.{Str, codes, trim_space, str_eq}
use fgoths_framework.Prelude.Maps.{Map, lookup, insert}

-- What a middleware does: it answers with an error, or calls the next handler, `scoped` with a tenant
-- that it has put into the context.
pub data Verdict : Type 0 where
  rejected : (status : ℕ) (message : Str) → Verdict
  passed : Verdict
  scoped : (tenant : Str) → Verdict

abbrev pub header_name : Str → Str
header_name name = if is_empty name then codes "X-Tenant-ID" else name

-- `header` is what the request has under the header's name.
unfoldable pub require_tenant : (header : Str) → Verdict
require_tenant header =
    let tenant = trim_space header in
    if is_empty tenant then rejected 400 (codes "tenant required") else scoped tenant

unfoldable pub tenant_of : (context header : Str) → Str
tenant_of context header =
    let tenant = trim_space context in if is_empty tenant then trim_space header else tenant

unfoldable pub require_tenant_match : (expected context header : Str) → Verdict
unfolding tenant_of
require_tenant_match expected context header =
    let tenant = tenant_of context header in
    if is_empty tenant
    then rejected 400 (codes "tenant required")
    else if not (is_empty expected) && not (str_eq tenant expected)
    then rejected 403 (codes "tenant access denied")
    else passed

pub record QuotaStore : Type 0 where
  pub by_user : Map (List ℕ)
  pub requests : ℕ

abbrev pub new_quota_store : QuotaStore
new_quota_store = record { by_user = []; requests = 0 }

-- The instant is after the cutoff, which is the window before now.
abbrev pub after_cutoff : (window now at : ℕ) → Bool
after_cutoff window now at = ltb now (at + window)

abbrev pub last_after_cutoff : (window now : ℕ) → List ℕ → Bool
last_after_cutoff window now [] = false
last_after_cutoff window now (t ∷ []) = after_cutoff window now t
last_after_cutoff window now (t ∷ u ∷ ts) = last_after_cutoff window now (u ∷ ts)

-- Deletes the tenants whose last request is over.
abbrev pub sweep : (window now : ℕ) → Map (List ℕ) → Map (List ℕ)
sweep window now m = keep (λ e. last_after_cutoff window now e.1) m

abbrev pub or_nil : Option (List ℕ) → List ℕ
or_nil none = []
or_nil (some ts) = ts

abbrev pub recent : (window now : ℕ) → List ℕ → List ℕ
recent window now ts = keep (after_cutoff window now) ts

-- The part under the lock: the store after the request, and whether the request is admitted. The
-- number of requests is 64 bits wide.
unfoldable pub count_request :
    (limit window : ℕ) (tenant : Str) (now : ℕ) → QuotaStore → QuotaStore × Bool
count_request limit window tenant now s =
    let requests = (s.requests + 1) % 2 ^ 64 in
    let m = if requests % 256 == 0 then sweep window now s.by_user else s.by_user in
    let filtered = recent window now (or_nil (lookup tenant m)) in
    if leb limit (length filtered)
    then (record { by_user = insert tenant filtered m; requests = requests }, false)
    else (record { by_user = insert tenant (filtered ++ now ∷ []) m; requests = requests }, true)

unfoldable pub tenant_quota :
    (limit window : ℤ) (context header : Str) (now : ℕ) → QuotaStore → QuotaStore × Verdict
unfolding count_request tenant_of
tenant_quota limit window context header now s =
    let tenant = tenant_of context header in
    let (s', admitted) = count_request (pos_part limit) (pos_part window) tenant now s in
    if leb_ℤ limit (pos 0) || leb_ℤ window (pos 0)
    then (s, passed)
    else if is_empty tenant
    then (s, rejected 400 (codes "tenant required"))
    else if admitted
    then (s', scoped tenant)
    else (s', rejected 429 (codes "tenant quota exceeded"))
