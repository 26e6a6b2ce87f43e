-- ===== src/Router/Serve.antt =====
-- Registration and dispatch together: Handle, Use and ServeHTTP of pkg/runtime/router.go.
use mathlib.Core.List.{reverse-cons}
use fgoths_framework.Prelude.{◌≡◌, refl, ap, ◌∙◌, List, [], ◌∷◌, ◌++◌, reverse, some, arith}
use fgoths_framework.Prelude.Text.{Str, to_upper}
use fgoths_framework.Prelude.Maps.{Map, lookup, insert, row, insert2, lookup-insert_self}
use fgoths_framework.Router.Path.{normalize_path}
use fgoths_framework.Router.Table.{
  RouteEntry, Router, PatternIndex, make_entry, handle, use_middleware, match_route, wrap_all, wrap,
  serve_http,
}

wrap_all-append :
    {H : Type 0} (ms ks : List (H → H)) (h : H)
    → wrap_all (ms ++ ks) h ≡ wrap_all ks (wrap_all ms h)
unfolding wrap_all
wrap_all-append [] ks h = refl
wrap_all-append (m ∷ ms) ks h = wrap_all-append ms ks (m h)

-- The first middleware registered is the outermost.
abbrev pub nest : {H : Type 0} → List (H → H) → H → H
nest [] h = h
nest (m ∷ ms) h = m (nest ms h)

pub wrap-eq-nest : {H : Type 0} (ms : List (H → H)) (h : H) → wrap ms h ≡ nest ms h
unfolding wrap wrap_all
wrap-eq-nest [] h = refl
wrap-eq-nest (m ∷ ms) h =
    ap (λ l. wrap_all l h) (reverse-cons m ms)
    ∙ wrap_all-append (reverse ms) (m ∷ []) h
    ∙ ap m (wrap-eq-nest ms h)

module _ {H : Type 0} (r : Router H) (index : PatternIndex) (method path : Str) (h : H)
    (mws : List (H → H)) where
  abbrev after_handle : Router H
  after_handle = use_middleware (handle r index method path (some h)).0 mws

  -- The row of the method after the registration.
  registered_row :
      lookup (to_upper method) after_handle.routes
      ≡ some (
          insert
            (normalize_path path)
            (make_entry (normalize_path path) h)
            (row (to_upper method) r.routes))
  unfolding handle use_middleware insert2
  registered_row = lookup-insert_self (to_upper method) _ r.routes

  middleware_after : after_handle.middleware ≡ r.middleware ++ mws
  unfolding handle use_middleware
  middleware_after = refl

module _ {H : Type 0} (order : Map (RouteEntry H) → List (Str × RouteEntry H)) where
  -- An exact entry is found before the map is ranged over.
  match_route_exact :
      (r : Router H) (method path : Str) (table : Map (RouteEntry H)) (e : RouteEntry H)
      → lookup method r.routes ≡ some table
      → lookup path table ≡ some e
      → match_route order r method path ≡ some (e, path)
  unfolding match_route
  match_route_exact r method path table e known found =
      rw (known, match_route) (rw (found, match_route))

  make_entry_handler : (path : Str) (h : H) → (make_entry path h).handler ≡ h
  unfolding make_entry
  make_entry_handler path h = ground arith

  -- After Handle for a path, and then Use, a request for that path and method is answered by the
  -- handler just registered, whatever the router held before and whatever the iteration order, inside
  -- all the middleware, outermost first.
  pub serve_http-handle :
      (r : Router H) (index : PatternIndex) (method path : Str) (h : H) (mws : List (H → H))
      → serve_http order (use_middleware (handle r index method path (some h)).0 mws) method path
        ≡ some (nest (r.middleware ++ mws) h, normalize_path path)
  unfolding serve_http
  serve_http-handle r index method path h mws =
      let m = to_upper method in
      let p = normalize_path path in
      let e = make_entry p h in
      let after = use_middleware (handle r index method path (some h)).0 mws in
      let found : match_route order after m p ≡ some (e, p) =
        match_route_exact after m p (insert p e (row m r.routes)) e
          (registered_row r index method path h mws) (lookup-insert_self p e (row m r.routes)) in
      rw (found, serve_http)
        (rw (
          middleware_after r index method path h mws,
          wrap-eq-nest (r.middleware ++ mws) e.handler,
          make_entry_handler p h,
        ))
