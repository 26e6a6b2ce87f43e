-- ===== src/Registry/Pool.antt =====
-- Who is in the pool that PickUpstream of pkg/runtime/upstream.go fills from the map of upstreams.
use mathlib.Core.List.{Memᴰ}
use fgoths_framework.Prelude.{
  ◌≡◌, inl, inr, refl, sym, ap, ◌∙◌, Bool, true, false, List, [], ◌∷◌, keep, map, Bool-cases, All,
}
use fgoths_framework.Prelude.Text.{Str}
use fgoths_framework.Prelude.Maps.{Map}
use fgoths_framework.Registry.State.{UpstreamConfig}

pub mem-keep :
    (p : UpstreamConfig → Bool) (xs : List UpstreamConfig) (up : UpstreamConfig)
    → Memᴰ up (keep p xs)
    → (p up ≡ true) × Memᴰ up xs
mem-keep p [] up m = elim m [ ]
mem-keep p (x ∷ xs) up m = split (mem-keep p xs up) (p x) refl m
  where
    split :
        (Memᴰ up (keep p xs) → (p up ≡ true) × Memᴰ up xs)
        → (b : Bool) → p x ≡ b
        → Memᴰ up (elim b [ true ↦ x ∷ keep p xs | false ↦ keep p xs ])
        → (p up ≡ true) × Memᴰ up (x ∷ xs)
    split ih true e (Memᴰ.head q) = (ap p q ∙ e, Memᴰ.head q)
    split ih true e (Memᴰ.tail t) = let (test, there) = ih t in (test, Memᴰ.tail there)
    split ih false e t = let (test, there) = ih t in (test, Memᴰ.tail there)

pub mem-entries :
    (xs : Map UpstreamConfig) (up : UpstreamConfig)
    → Memᴰ up (map (λ x. x.1) xs)
    → (k : Str) × Memᴰ (k, up) xs
mem-entries [] up m = elim m [ ]
mem-entries ((k, u) ∷ xs) up (Memᴰ.head e) = (k, Memᴰ.head (ap (λ v. (k, v)) e))
mem-entries ((k, u) ∷ xs) up (Memᴰ.tail t) =
    let (j, there) = mem-entries xs up t in (j, Memᴰ.tail there)

pub keep-mem :
    (p : UpstreamConfig → Bool) (xs : List UpstreamConfig) (up : UpstreamConfig)
    → Memᴰ up xs
    → p up ≡ true
    → Memᴰ up (keep p xs)
keep-mem p [] up m e = elim m [ ]
keep-mem p (x ∷ xs) up (Memᴰ.head q) e = rw (sym (ap p q) ∙ e, keep) (Memᴰ.head q)
keep-mem p (x ∷ xs) up (Memᴰ.tail t) e = elim (Bool-cases (p x)) [
  | inl kept ↦ rw (kept, keep) (Memᴰ.tail (keep-mem p xs up t e))
  | inr dropped ↦ rw (dropped, keep) (keep-mem p xs up t e)
]

pub entries-mem :
    (xs : Map UpstreamConfig) (k : Str) (up : UpstreamConfig)
    → Memᴰ (k, up) xs
    → Memᴰ up (map (λ x. x.1) xs)
entries-mem [] k up m = elim m [ ]
entries-mem (x ∷ xs) k up (Memᴰ.head e) = Memᴰ.head (ap (λ x. x.1) e)
entries-mem (x ∷ xs) k up (Memᴰ.tail t) = Memᴰ.tail (entries-mem xs k up t)

pub All-mem :
    (P : UpstreamConfig → Type 0) (xs : List UpstreamConfig)
    → ((up : UpstreamConfig) → Memᴰ up xs → P up)
    → All P xs
All-mem P [] h = tt
All-mem P (x ∷ xs) h = (h x (Memᴰ.head refl), All-mem P xs (λ up m. h up (Memᴰ.tail m)))
