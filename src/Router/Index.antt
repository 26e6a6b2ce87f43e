-- ===== src/Router/Index.antt =====
-- What registration keeps true of the router and of the index of parameter patterns (pkg/runtime/router.go).
use fgoths_framework.Prelude.{
  ◌≡◌, sym, ap, ◌∙◌, subst, true, List, [], ◌∷◌, Option, none, some, arith, ◌&&◌, Bool-cases,
  Option-cases, inl, inr,
}
use fgoths_framework.Prelude.Text.{Str, str_eq, str_eq_iff, to_upper}
use fgoths_framework.Prelude.Maps.{
  Map, lookup, insert, row, lookup2, insert2, lookup-insert, lookup2-insert2, DistinctKeys,
  insert-DistinctKeys,
}
use fgoths_framework.Router.Path.{normalize_path}
use fgoths_framework.Router.Pattern.{RouteSegment}
use fgoths_framework.Router.Table.{
  RouteEntry, Router, PatternIndex, param_segments, index_param_pattern, index_path, make_entry,
  handle, handle_all, handle_any, use_middleware, new_router, methods,
}

-- The index holds what its patterns compile to, every parameter route is in it with its own
-- segments, and no table has a key twice.
pub record IsRegistered {H : Type 0} (r : Router H) (index : PatternIndex) : Type 0 where
  pub tables :
      (method : Str) (table : Map (RouteEntry H))
      → lookup method r.routes ≡ some table
      → DistinctKeys table
  pub indexed :
      (p : Str) (ss : List RouteSegment) → lookup p index ≡ some ss → param_segments p ≡ some ss
  pub entries :
      (method p : Str) (e : RouteEntry H)
      → lookup2 method p r.routes ≡ some e
      → e.has_params ≡ true
      → lookup p index ≡ some e.segments

row-DistinctKeys :
    {V : Type 0} (a : Str) (m : Map (Map V))
    → ((k : Str) (t : Map V) → lookup k m ≡ some t → DistinctKeys t)
    → DistinctKeys (row a m)
unfolding row
row-DistinctKeys a m h = elim (Option-cases (lookup a m)) [
  | inl e ↦ rw (e, row) tt
  | inr (t, e) ↦ rw (e, row) (h a t e)
]

-- An entry of the index is never replaced.
index_keeps :
    (p q : Str) (ss ts : List RouteSegment) (index : PatternIndex)
    → lookup q index ≡ some ts
    → lookup q (index_param_pattern p ss index) ≡ some ts
unfolding index_param_pattern
index_keeps p q ss ts index h = elim (Option-cases (lookup p index)) [
  | inl e ↦ ground (arith, lookup-insert p q ss index, str_eq_iff p q)
  | inr (us, e) ↦ rw (e, index_param_pattern) h
]

index_holds :
    (p : Str) (ss : List RouteSegment) (index : PatternIndex)
    → ((q : Str) (ts : List RouteSegment) → lookup q index ≡ some ts → param_segments q ≡ some ts)
    → param_segments p ≡ some ss
    → lookup p (index_param_pattern p ss index) ≡ some ss
unfolding index_param_pattern
index_holds p ss index ok c = elim (Option-cases (lookup p index)) [
  | inl e ↦ ground (arith, lookup-insert p p ss index, str_eq_iff p p)
  | inr (us, e) ↦ rw (e, index_param_pattern) (e ∙ sym (ok p us e) ∙ c)
]

index_sound :
    (p : Str) (ss : List RouteSegment) (index : PatternIndex)
    → ((q : Str) (ts : List RouteSegment) → lookup q index ≡ some ts → param_segments q ≡ some ts)
    → param_segments p ≡ some ss
    → (q : Str) (ts : List RouteSegment) → lookup q (index_param_pattern p ss index) ≡ some ts
    → param_segments q ≡ some ts
unfolding index_param_pattern
index_sound p ss index ok c q ts h = elim (Option-cases (lookup p index)) [
  | inl e ↦ elim (Bool-cases (str_eq p q)) [
    | inl same ↦ ground (arith, lookup-insert p q ss index, str_eq_iff p q)
    | inr other ↦ ok q ts (ground (arith, lookup-insert p q ss index))
  ]
  | inr (us, e) ↦ ok q ts (ground arith)
]

insert2-tables :
    {V : Type 0} (a b : Str) (v : V) (m : Map (Map V))
    → ((k : Str) (t : Map V) → lookup k m ≡ some t → DistinctKeys t)
    → (k : Str) (t : Map V) → lookup k (insert2 a b v m) ≡ some t
    → DistinctKeys t
unfolding insert2
insert2-tables a b v m h k t e = elim (Bool-cases (str_eq a k)) [
  | inl same ↦
      let t-eq : insert b v (row a m) ≡ t =
        ground (arith, lookup-insert a k (insert b v (row a m)) m) in
      subst DistinctKeys t-eq (insert-DistinctKeys b v (row a m) (row-DistinctKeys a m h))
  | inr other ↦ h k t (ground (arith, lookup-insert a k (insert b v (row a m)) m))
]

module _ {H : Type 0} (r : Router H) (index : PatternIndex) (ok : IsRegistered r index) where
  index_path-indexed :
      (p q : Str) (ts : List RouteSegment)
      → lookup q (index_path p index) ≡ some ts
      → param_segments q ≡ some ts
  unfolding index_path
  index_path-indexed p q ts h = elim (Option-cases (param_segments p)) [
    | inl e ↦ ok.indexed q ts (ground arith)
    | inr (ss, e) ↦ index_sound p ss index ok.indexed e q ts (ground arith)
  ]

  index_path-keeps :
      (p q : Str) (ts : List RouteSegment)
      → lookup q index ≡ some ts
      → lookup q (index_path p index) ≡ some ts
  unfolding index_path
  index_path-keeps p q ts h = elim (Option-cases (param_segments p)) [
    | inl e ↦ rw (e, index_path) h
    | inr (ss, e) ↦ rw (e, index_path) (index_keeps p q ss ts index h)
  ]

  make_entry-indexed :
      (p : Str) (h : H)
      → (make_entry p h).has_params ≡ true
      → lookup p (index_path p index) ≡ some (make_entry p h).segments
  unfolding make_entry index_path
  make_entry-indexed p h t = elim (Option-cases (param_segments p)) [
    | inl e ↦ absurd (ground arith)
    | inr (ss, e) ↦ rw (e, index_path, make_entry) (index_holds p ss index ok.indexed e)
  ]

  -- Registration keeps the invariant, for every method, path and handler.
  handle-IsRegistered :
      (method path : Str) (h : Option H)
      → IsRegistered (handle r index method path h).0 (handle r index method path h).1
  unfolding handle
  handle-IsRegistered method path none = ok
  handle-IsRegistered method path (some h) =
      let m = to_upper method in
      let p = normalize_path path in
      record {
        tables = insert2-tables m p (make_entry p h) r.routes ok.tables;
        indexed = index_path-indexed p;
        entries = λ k q e found t. elim (Bool-cases (str_eq m k && str_eq p q)) [
          | inl same ↦
              let entry : make_entry p h ≡ e =
                ground (arith, lookup2-insert2 m p k q (make_entry p h) r.routes) in
              let here =
                make_entry-indexed p h (ap (λ (x : RouteEntry H). x.has_params) entry ∙ t) in
              let p-eq : p ≡ q = ground (arith, str_eq_iff p q) in
              subst (λ z. lookup z (index_path p index) ≡ some e.segments) p-eq
                (here ∙ ap (λ (x : RouteEntry H). some x.segments) entry)
          | inr other ↦ index_path-keeps p q e.segments (
              ok.entries k q e (ground (arith, lookup2-insert2 m p k q (make_entry p h) r.routes))
                t)
        ];
      }

handle_all-IsRegistered :
    {H : Type 0} (r : Router H) (index : PatternIndex) (ms : List Str) (path : Str) (h : Option H)
    → IsRegistered r index
    → IsRegistered (handle_all r index ms path h).0 (handle_all r index ms path h).1
unfolding handle_all
handle_all-IsRegistered r index [] path h ok = ok
handle_all-IsRegistered r index (m ∷ ms) path h ok =
    handle_all-IsRegistered (handle r index m path h).0 (handle r index m path h).1 ms path h
      (handle-IsRegistered r index ok m path h)

-- The calls by which a program sets its router up.
pub data Setup (H : Type 0) : Type 0 where
  handles : Str → Str → Option H → Setup H
  handles_any : Str → Option H → Setup H
  uses : List (H → H) → Setup H

abbrev pub setup_step : {H : Type 0} → Router H × PatternIndex → Setup H → Router H × PatternIndex
setup_step (r, index) (handles method path h) = handle r index method path h
setup_step (r, index) (handles_any path h) = handle_any r index path h
setup_step (r, index) (uses mws) = (use_middleware r mws, index)

abbrev pub setup : {H : Type 0} → Router H × PatternIndex → List (Setup H) → Router H × PatternIndex
setup s [] = s
setup s (c ∷ cs) = setup (setup_step s c) cs

setup_step-IsRegistered :
    {H : Type 0} (s : Router H × PatternIndex) (c : Setup H)
    → IsRegistered s.0 s.1
    → IsRegistered (setup_step s c).0 (setup_step s c).1
unfolding use_middleware handle_any
setup_step-IsRegistered (r, index) (handles method path h) ok =
    handle-IsRegistered r index ok method path h
setup_step-IsRegistered (r, index) (handles_any path h) ok =
    handle_all-IsRegistered r index methods path h ok
setup_step-IsRegistered (r, index) (uses mws) ok = record {
  tables = ok.tables;
  indexed = ok.indexed;
  entries = ok.entries;
}

setup-IsRegistered :
    {H : Type 0} (s : Router H × PatternIndex) (cs : List (Setup H))
    → IsRegistered s.0 s.1
    → IsRegistered (setup s cs).0 (setup s cs).1
setup-IsRegistered s [] ok = ok
setup-IsRegistered s (c ∷ cs) ok =
    setup-IsRegistered (setup_step s c) cs (setup_step-IsRegistered s c ok)

-- Any sequence of registrations, on a new router and the empty index, leaves an index that holds
-- what its patterns compile to, with an entry for each parameter route, and tables with distinct keys.
pub new_router-IsRegistered :
    {H : Type 0} (cs : List (Setup H))
    → IsRegistered (setup (new_router, []) cs).0 (setup (new_router, []) cs).1
unfolding new_router lookup lookup2
new_router-IsRegistered cs =
    setup-IsRegistered (record { routes = []; middleware = [] }, []) cs
      (record {
        tables = λ k t e. absurd (ground arith);
        indexed = λ p ss e. absurd (ground arith);
        entries = λ k p e found t. absurd (ground arith);
      })
