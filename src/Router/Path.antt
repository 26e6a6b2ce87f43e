-- ===== src/Router/Path.antt =====
-- normalizePath (pkg/runtime/proxy.go), routeMatches and withWildcardRoute (pkg/runtime/router.go).
use fgoths_framework.Prelude.{
  ℕ, Bool, true, not, ◌&&◌, ◌||◌, [], ◌∷◌, ◌++◌, if◌then◌else◌, is_empty,
}
use fgoths_framework.Prelude.Text.{Str, codes, str_eq, has_prefix, has_suffix, trim_suffix}

abbrev pub slash : ℕ
slash = b'/'

abbrev pub root : Str
root = slash ∷ []

unfoldable pub add_slash : Str → Str
add_slash path = if not (has_prefix path root) then root ++ path else path

unfoldable pub drop_slash : Str → Str
drop_slash path =
    if not (str_eq path root) && has_suffix path root then trim_suffix path root else path

unfoldable pub normalize_path : Str → Str
unfolding add_slash drop_slash
normalize_path path = if is_empty path then root else drop_slash (add_slash path)

abbrev wildcard_tail : Str
wildcard_tail = codes "/*"

unfoldable pub route_matches : Str → Str → Bool
unfolding normalize_path
route_matches route path =
    let r = normalize_path route in
    let p = normalize_path path in
    if str_eq r p
    then true
    else if has_suffix r wildcard_tail
    then (let base = trim_suffix r wildcard_tail in
        if is_empty base then true else (str_eq base p || has_prefix p (base ++ root)))
    else has_prefix p (r ++ root)

unfoldable pub with_wildcard_route : Str → Str
unfolding normalize_path
with_wildcard_route prefix =
    let p = normalize_path prefix in if str_eq p root then wildcard_tail else p ++ wildcard_tail
