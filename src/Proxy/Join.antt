-- ===== src/Proxy/Join.antt =====
-- joinProxyPath of pkg/runtime/proxy.go, and the setters of the prefixes it works with.
use mathlib.Core.List.{append_assoc}
use fgoths_framework.Prelude.{
  ℕ, zero, suc, ◌-◌, ◌≡◌, ◌≢◌, refl, sym, ap, ◌∙◌, subst, true, not, ◌&&◌, ◌==◌, [], ◌∷◌, ◌++◌,
  if◌then◌else◌, arith, is_empty, if_cases, length, take, drop,
}
use fgoths_framework.Prelude.Text.{
  Str, str_eq, str_eq_iff, has_prefix, has_suffix, trim_prefix, trim_suffix, trim_prefix-append,
  has_prefix-split,
}
use fgoths_framework.Router.Path.{slash, root, add_slash, drop_slash, normalize_path}

-- WithStripPrefix, WithPathPrefix and WithRewrite normalize a prefix, and keep "" for the root.
unfoldable pub stored_prefix : Str → Str
stored_prefix prefix = let p = normalize_path prefix in if str_eq p root then [] else p

unfoldable pub strip : Str → Str → Str
strip prefix path = if is_empty prefix then path else trim_prefix path prefix

unfoldable pub rewrite : Str → Str → Str → Str
rewrite from to path =
    if is_empty from
    then path
    else if str_eq path from
    then to
    else if has_prefix path (from ++ root)
    then to ++ trim_prefix path from
    else path

unfoldable pub or_root : Str → Str
or_root path = if is_empty path then root else path

unfoldable pub add_target_prefix : Str → Str → Str
add_target_prefix prefix path =
    let p = normalize_path prefix in
    if is_empty prefix then path else if str_eq p root then path else p ++ path

unfoldable pub add_base : Str → Str → Str
add_base base path =
    if is_empty base
    then path
    else if str_eq base root
    then path
    else if has_suffix base root
    then trim_suffix base root ++ path
    else base ++ path

unfoldable pub join_proxy_path : Str → Str → Str → Str → Str → Str → Str
join_proxy_path base incoming strip_prefix target_prefix rewrite_from rewrite_to = add_base base (
    add_target_prefix target_prefix
      (or_root (rewrite rewrite_from rewrite_to (strip strip_prefix incoming))))

-- The path begins with a slash.
abbrev pub IsRooted : Str → Type 0
IsRooted [] = ⊥
IsRooted (a ∷ path) = a ≡ slash

abbrev pub IsRootedOrEmpty : Str → Type 0
IsRootedOrEmpty [] = Unit
IsRootedOrEmpty (a ∷ path) = a ≡ slash

append-IsRooted : (s t : Str) → IsRootedOrEmpty s → IsRooted t → IsRooted (s ++ t)
append-IsRooted [] t h k = k
append-IsRooted (a ∷ s) t h k = h

take-IsRootedOrEmpty : (n : ℕ) (s : Str) → IsRootedOrEmpty s → IsRootedOrEmpty (take n s)
take-IsRootedOrEmpty zero s h = tt
take-IsRootedOrEmpty (suc n) [] h = tt
take-IsRootedOrEmpty (suc n) (a ∷ s) h = h

trim_suffix-IsRootedOrEmpty : (s t : Str) → IsRootedOrEmpty s → IsRootedOrEmpty (trim_suffix s t)
unfolding trim_suffix
trim_suffix-IsRootedOrEmpty s t h =
    if_cases IsRootedOrEmpty (has_suffix s t) _ _
      (λ _. take-IsRootedOrEmpty (length s - length t) s h) (λ _. h)

add_slash-IsRooted : (a : ℕ) (s : Str) → IsRooted (add_slash (a ∷ s))
unfolding add_slash has_prefix
add_slash-IsRooted a s =
    if_cases IsRooted (not (a == slash && true)) _ _ (λ _. refl) (λ h. ground arith)

drop_slash-IsRooted : (s : Str) → IsRooted s → IsRooted (drop_slash s)
unfolding drop_slash trim_suffix
drop_slash-IsRooted [] h = elim h [ ]
drop_slash-IsRooted (a ∷ []) h =
    if_cases IsRooted (not (str_eq (a ∷ []) root) && has_suffix (a ∷ []) root) _ _
      (λ t. absurd (ground (arith, ap {B = Str} (λ (b : ℕ). b ∷ []) h, str_eq_iff (a ∷ []) root)))
      (λ _. h)
drop_slash-IsRooted (a ∷ b ∷ s) h =
    if_cases IsRooted (not (str_eq (a ∷ b ∷ s) root) && has_suffix (a ∷ b ∷ s) root) _ _
      (λ _.
        if_cases IsRooted (has_suffix (a ∷ b ∷ s) root) _ _
          (λ _.
            let e : suc (suc (length s)) - 1 ≡ suc (length s) = omega arith in
            subst (λ n. IsRooted (take n (a ∷ b ∷ s))) (sym e) h)
          (λ _. h))
      (λ _. h)

pub normalize_path-IsRooted : (path : Str) → IsRooted (normalize_path path)
unfolding normalize_path
normalize_path-IsRooted [] = refl
normalize_path-IsRooted (a ∷ s) = drop_slash-IsRooted (add_slash (a ∷ s)) (add_slash-IsRooted a s)

IsRooted-or_empty : (s : Str) → IsRooted s → IsRootedOrEmpty s
IsRooted-or_empty [] h = tt
IsRooted-or_empty (a ∷ s) h = h

stored_prefix-IsRooted : (prefix : Str) → IsRootedOrEmpty (stored_prefix prefix)
unfolding stored_prefix
stored_prefix-IsRooted prefix =
    if_cases IsRootedOrEmpty (str_eq (normalize_path prefix) root) _ _ (λ _. tt)
      (λ _. IsRooted-or_empty _ (normalize_path-IsRooted prefix))

-- What follows a prefix that ends at a slash is rooted.
rest-IsRooted :
    (path from : Str) → has_prefix path (from ++ root) ≡ true → IsRooted (trim_prefix path from)
rest-IsRooted path from h =
    let e : path ≡ from ++ (root ++ drop (length (from ++ root)) path) =
      has_prefix-split path (from ++ root) h
      ∙ append_assoc from root (drop (length (from ++ root)) path) in
    let t : trim_prefix path from ≡ root ++ drop (length (from ++ root)) path =
      ap (λ p. trim_prefix p from) e
      ∙ trim_prefix-append from (root ++ drop (length (from ++ root)) path) in
    subst IsRooted (sym t) refl

rewrite-IsRooted :
    (from to path : Str)
    → IsRootedOrEmpty to
    → IsRooted path
    → IsRootedOrEmpty (rewrite from to path)
unfolding rewrite
rewrite-IsRooted from to path h k =
    if_cases IsRootedOrEmpty (is_empty from) _ _ (λ _. IsRooted-or_empty path k)
      (λ _.
        if_cases IsRootedOrEmpty (str_eq path from) _ _ (λ _. h)
          (λ _.
            if_cases IsRootedOrEmpty (has_prefix path (from ++ root)) _ _
              (λ t. IsRooted-or_empty _ (append-IsRooted to _ h (rest-IsRooted path from t)))
              (λ _. IsRooted-or_empty path k)))

or_root-IsRooted : (path : Str) → IsRootedOrEmpty path → IsRooted (or_root path)
unfolding or_root
or_root-IsRooted [] h = refl
or_root-IsRooted (a ∷ path) h = h

add_target_prefix-IsRooted :
    (prefix path : Str) → IsRooted path → IsRooted (add_target_prefix prefix path)
unfolding add_target_prefix
add_target_prefix-IsRooted prefix path h =
    if_cases IsRooted (is_empty prefix) _ _ (λ _. h)
      (λ _.
        if_cases IsRooted (str_eq (normalize_path prefix) root) _ _ (λ _. h)
          (λ _. append-IsRooted _ path (IsRooted-or_empty _ (normalize_path-IsRooted prefix)) h))

add_base-IsRooted :
    (base path : Str) → IsRootedOrEmpty base → IsRooted path → IsRooted (add_base base path)
unfolding add_base
add_base-IsRooted base path b h =
    if_cases IsRooted (is_empty base) _ _ (λ _. h)
      (λ _.
        if_cases IsRooted (str_eq base root) _ _ (λ _. h)
          (λ _.
            if_cases IsRooted (has_suffix base root) _ _
              (λ _. append-IsRooted _ path (trim_suffix-IsRootedOrEmpty base root b) h)
              (λ _. append-IsRooted base path b h)))

-- Without a strip prefix, a request path that begins with a slash is forwarded as one that does, for
-- every target prefix, every rewriting with prefixes as WithRewrite stores them, and every base path
-- that is empty or begins with a slash.
join_proxy_path-IsRooted :
    (base incoming target_prefix from to : Str)
    → IsRootedOrEmpty base
    → IsRooted incoming
    → IsRooted
        (join_proxy_path base incoming [] target_prefix (stored_prefix from) (stored_prefix to))
unfolding join_proxy_path strip
join_proxy_path-IsRooted base incoming target_prefix from to b h = add_base-IsRooted base _ b (
    add_target_prefix-IsRooted target_prefix _ (
      or_root-IsRooted _ (
        rewrite-IsRooted (stored_prefix from) (stored_prefix to) incoming
          (stored_prefix-IsRooted to) h)))

-- Stripping does not look for the end of a segment: whenever the byte after the prefix is no slash,
-- the path forwarded to a base path of "" or "/" does not begin with one.
strip_inside_segment :
    (prefix rest : Str) (c : ℕ)
    → prefix ≢ []
    → c ≢ slash
    → (join_proxy_path [] (prefix ++ c ∷ rest) prefix [] [] [] ≡ c ∷ rest)
      × (join_proxy_path root (prefix ++ c ∷ rest) prefix [] [] [] ≡ c ∷ rest)
      × ¬ IsRooted (c ∷ rest)
unfolding join_proxy_path strip rewrite or_root add_target_prefix add_base
strip_inside_segment [] rest c h n = absurd (h refl)
strip_inside_segment (a ∷ prefix) rest c h n =
    let e = trim_prefix-append (a ∷ prefix) (c ∷ rest) in
    (ground (arith, e), ground (arith, e, str_eq_iff root root), n)
