-- ===== src/Registry/Weights.antt =====
-- The weighted choice among a pool: pickWeightedUpstream of pkg/runtime/upstream.go.
use mathlib.Core.List.{Memᴰ}
use fgoths_framework.Prelude.{
  ◌≡◌, inl, inr, refl, true, List, [], ◌∷◌, ◌++◌, some, arith, is_some, Bool-cases, All, ◌⊎◌, ◌↔◌,
  ap, sym, subst, ◌∙◌,
}
use fgoths_framework.Prelude.Int.{
  ℤ, pos, ltb_ℤ, ◌≤ℤ◌, ◌+ℤ◌, ◌-ℤ◌, int_laws, max_int64, wrap_int64, wrap_int64_exact,
}
use fgoths_framework.Registry.State.{UpstreamConfig}
use fgoths_framework.Registry.Upstreams.{total_weight, pick_weighted_upstream}

abbrev pub IsWeighted : UpstreamConfig → Type 0
IsWeighted up = pos 1 ≤ℤ up.weight

-- The exact sum of the weights.
unfoldable pub weight_sum : List UpstreamConfig → ℤ
weight_sum [] = pos 0
weight_sum (up ∷ pool) = up.weight +ℤ weight_sum pool

weight_sum-nonneg : (pool : List UpstreamConfig) → All IsWeighted pool → pos 0 ≤ℤ weight_sum pool
unfolding weight_sum
weight_sum-nonneg [] h = omega arith
weight_sum-nonneg (up ∷ pool) h = grind (int_laws, weight_sum-nonneg pool h.1)

-- A sum within an `int` is the total.
total_weight_exact :
    (pool : List UpstreamConfig)
    → All IsWeighted pool
    → weight_sum pool ≤ℤ max_int64
    → total_weight pool ≡ weight_sum pool
unfolding total_weight weight_sum
total_weight_exact [] h small = refl
total_weight_exact (up ∷ pool) h small =
    let rest = weight_sum-nonneg pool h.1 in
    ap (λ n. wrap_int64 (up.weight +ℤ n)) (total_weight_exact pool h.1 (grind int_laws))
    ∙ wrap_int64_exact (up.weight +ℤ weight_sum pool) (grind int_laws) small

pub total_weight-positive :
    (up : UpstreamConfig) (pool : List UpstreamConfig)
    → All IsWeighted (up ∷ pool)
    → weight_sum (up ∷ pool) ≤ℤ max_int64
    → pos 1 ≤ℤ total_weight (up ∷ pool)
unfolding weight_sum
total_weight-positive up pool h small =
    subst (λ n. pos 1 ≤ℤ n) (sym (total_weight_exact (up ∷ pool) h small))
      (grind (int_laws, weight_sum-nonneg pool h.1))

interval-pick :
    (before : List UpstreamConfig) (up : UpstreamConfig) (after : List UpstreamConfig) (pick : ℤ)
    → All IsWeighted before
    → weight_sum before ≤ℤ pick
    → ltb_ℤ pick (weight_sum before +ℤ up.weight) ≡ true
    → pick_weighted_upstream (before ++ up ∷ after) pick ≡ some up
unfolding weight_sum pick_weighted_upstream
interval-pick [] up [] pick h low high = refl
interval-pick [] up (next ∷ after) pick h low high = grind int_laws
interval-pick (b ∷ []) up after pick h low high =
    grind (int_laws, interval-pick [] up after (pick -ℤ b.weight))
interval-pick (b ∷ c ∷ before) up after pick h low high = grind (
  int_laws,
  weight_sum-nonneg (c ∷ before) h.1,
  interval-pick (c ∷ before) up after (pick -ℤ b.weight) h.1,
)

last-pick :
    (before : List UpstreamConfig) (up : UpstreamConfig) (pick : ℤ)
    → All IsWeighted before
    → weight_sum before ≤ℤ pick
    → pick_weighted_upstream (before ++ up ∷ []) pick ≡ some up
unfolding weight_sum pick_weighted_upstream
last-pick [] up pick h low = refl
last-pick (b ∷ []) up pick h low = grind (int_laws, last-pick [] up (pick -ℤ b.weight))
last-pick (b ∷ c ∷ before) up pick h low =
    grind (
      int_laws,
      weight_sum-nonneg (c ∷ before) h.1,
      last-pick (c ∷ before) up (pick -ℤ b.weight) h.1,
    )

-- The number falls to this place of the pool: it is at least the sum of the weights before the place,
-- and below that sum and the place's own weight, unless the place is the last.
pub record IsShare (pool : List UpstreamConfig) (pick : ℤ) (up : UpstreamConfig)
    (before after : List UpstreamConfig) : Type 0 where
  pub place : pool ≡ before ++ up ∷ after
  pub low : weight_sum before ≤ℤ pick
  pub high : (ltb_ℤ pick (weight_sum before +ℤ up.weight) ≡ true) ⊎ (after ≡ [])

abbrev pub Share : List UpstreamConfig → ℤ → UpstreamConfig → Type 0
Share pool pick up =
    (before : List UpstreamConfig) × (after : List UpstreamConfig) × IsShare pool pick up before
      after

pick-Share :
    (pool : List UpstreamConfig) (pick : ℤ) (up : UpstreamConfig)
    → All IsWeighted pool
    → pos 0 ≤ℤ pick
    → pick_weighted_upstream pool pick ≡ some up
    → Share pool pick up
unfolding weight_sum pick_weighted_upstream
pick-Share [] pick up h nonneg e = absurd (ground arith)
pick-Share (u ∷ []) pick up h nonneg e =
    ([], [], record { place = ap (λ x. x ∷ []) (ground arith); low = nonneg; high = inr refl })
pick-Share (u ∷ next ∷ pool) pick up h nonneg e =
    elim (Bool-cases (ltb_ℤ (pick -ℤ u.weight) (pos 0))) [
      | inl here ↦
          let same : u ≡ up = ground arith in
          (
            [],
            next ∷ pool,
            record {
              place = ap (λ x. x ∷ next ∷ pool) same;
              low = nonneg;
              high = inl (subst (λ x. ltb_ℤ pick (pos 0 +ℤ x.weight) ≡ true) same (grind int_laws));
            },
          )
      | inr later ↦
          let (before, after, share) =
            pick-Share (next ∷ pool) (pick -ℤ u.weight) up h.1 (grind int_laws) (ground arith) in
          (
            u ∷ before,
            after,
            record {
              place = ap (λ xs. u ∷ xs) share.place;
              low = grind (int_laws, share.low);
              high = elim share.high [
                | inl below ↦ inl (grind (int_laws, below))
                | inr last ↦ inr last
              ];
            },
          )
    ]

All-before :
    (before : List UpstreamConfig) (rest : List UpstreamConfig)
    → All IsWeighted (before ++ rest)
    → All IsWeighted before
All-before [] rest h = tt
All-before (b ∷ before) rest h = (h.0, All-before before rest h.1)

-- Under positive weights, a number that is not negative is answered with an upstream exactly if it
-- falls to a place where that upstream stands in the pool: the numbers of a place are an interval as
-- long as its weight, which starts at the sum of the weights before it; those of the last place have
-- no end.
pub pick_weighted_upstream_iff :
    (pool : List UpstreamConfig) (pick : ℤ) (up : UpstreamConfig)
    → All IsWeighted pool
    → pos 0 ≤ℤ pick
    → (pick_weighted_upstream pool pick ≡ some up) ↔ Share pool pick up
pick_weighted_upstream_iff pool pick up h nonneg = (pick-Share pool pick up h nonneg, from)
  where
    from : Share pool pick up → pick_weighted_upstream pool pick ≡ some up
    from (before, after, share) =
        let weighted =
          All-before before (up ∷ after) (subst (λ xs. All IsWeighted xs) share.place h) in
        ap (λ xs. pick_weighted_upstream xs pick) share.place ∙ elim share.high [
          | inl below ↦ interval-pick before up after pick weighted share.low below
          | inr last ↦
              ap (λ xs. pick_weighted_upstream (before ++ up ∷ xs) pick) last
              ∙ last-pick before up pick weighted share.low
        ]

pub pick_weighted_upstream-mem :
    (pool : List UpstreamConfig) (pick : ℤ) (up : UpstreamConfig)
    → pick_weighted_upstream pool pick ≡ some up
    → Memᴰ up pool
unfolding pick_weighted_upstream
pick_weighted_upstream-mem [] pick up e = absurd (ground arith)
pick_weighted_upstream-mem (u ∷ []) pick up e = Memᴰ.head (ground arith)
pick_weighted_upstream-mem (u ∷ next ∷ pool) pick up e =
    elim (Bool-cases (ltb_ℤ (pick -ℤ u.weight) (pos 0))) [
      | inl here ↦ Memᴰ.head (ground arith)
      | inr later ↦
          Memᴰ.tail (pick_weighted_upstream-mem (next ∷ pool) (pick -ℤ u.weight) up (ground arith))
    ]

pub pick_weighted_upstream-some :
    (up : UpstreamConfig) (pool : List UpstreamConfig) (pick : ℤ)
    → is_some (pick_weighted_upstream (up ∷ pool) pick) ≡ true
unfolding pick_weighted_upstream
pick_weighted_upstream-some up [] pick = refl
pick_weighted_upstream-some up (next ∷ pool) pick =
    ground (arith, pick_weighted_upstream-some next pool (pick -ℤ up.weight))
