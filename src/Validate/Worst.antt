-- ===== src/Validate/Worst.antt =====
-- What `worst` computes: the least claim that covers every value (crates/chat/src/engine/validate.rs).
use Prim.Native.Nat.{max}
use fineract_ai_backend.Prelude.{
  ℕ, zero, suc, ◌≤◌, ◌≡◌, refl, ◌↔◌, String, List, [], ◌∷◌, All, arith,
}
use fineract_ai_backend.Store.Vocabulary.{Completeness, completeness_text}
use fineract_ai_backend.Validate.Claims.{rank, position, severity, worst, completeness_at}

-- How bad a claim is.
abbrev pub badness : Completeness → ℕ
badness c = rank (completeness_text c)

pub rank-le-2 : (value : String) → rank value ≤ 2
unfolding rank position
rank-le-2 value = ground arith

badness_values :
    (badness Completeness.complete ≡ 0)
    × (badness Completeness.partial ≡ 1)
    × (badness Completeness.unknown ≡ 2)
unfolding rank position
badness_values = (refl, refl, refl)

pub badness-le-unknown : (c : Completeness) → badness c ≤ badness Completeness.unknown
badness-le-unknown c = omega (arith, badness_values.2, rank-le-2 (completeness_text c))

pub badness-completeness_at : (n : ℕ) → n ≤ 2 → badness (completeness_at n) ≡ n
badness-completeness_at zero h = badness_values.0
badness-completeness_at (suc zero) h = badness_values.1
badness-completeness_at (suc (suc n)) h = omega (arith, badness_values.2)

max_bound : (a b k : ℕ) → a ≤ k → b ≤ k → max a b ≤ k
max_bound a b k h h' = omega arith

severity_bound :
    (values : List String) (s k : ℕ)
    → (severity values s ≤ k) ↔ ((s ≤ k) × All (λ v. rank v ≤ k) values)
unfolding severity
severity_bound [] s k = (λ h. (h, tt), λ h. h.0)
severity_bound (v ∷ vs) s k =
    let (down, up) = severity_bound vs (max s (rank v)) k in
    (
      λ h. let (m, rest) = down h in (omega arith, (omega arith, rest)),
      λ h. up (max_bound s (rank v) k h.0 h.1.0, h.1.1),
    )

severity-le-2 : (values : List String) (s : ℕ) → s ≤ 2 → severity values s ≤ 2
unfolding severity
severity-le-2 [] s h = h
severity-le-2 (v ∷ vs) s h = severity-le-2 vs (max s (rank v)) (max_bound s _ 2 h (rank-le-2 v))

-- The worst of one or more values covers each of them and no more: it is within a bound exactly when
-- all of them are.
pub worst-IsLeast :
    (v : String) (vs : List String) (k : ℕ)
    → (badness (worst (v ∷ vs)) ≤ k) ↔ All (λ u. rank u ≤ k) (v ∷ vs)
unfolding worst
worst-IsLeast v vs k =
    let (down, up) = severity_bound (v ∷ vs) 0 k in
    let exact =
      badness-completeness_at (severity (v ∷ vs) 0) (severity-le-2 (v ∷ vs) 0 (omega arith)) in
    (
      λ h. (down (omega (arith, exact))).1,
      λ h. let bound = up (omega arith, h) in omega (arith, exact, bound),
    )

pub le-worst : (u : String) (vs : List String) → rank u ≤ badness (worst (u ∷ vs))
le-worst u vs = ((worst-IsLeast u vs _).0 (omega arith)).0
