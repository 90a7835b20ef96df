-- ===== src/Stream/Gaps/Reads.antt =====
-- What a read of the log gives.
use fineract_ai_backend.Prelude.{
  ℕ, zero, suc, ◌+◌, ◌≡◌, ◌≤◌, ◌<◌, refl, true, false, List, [], ◌∷◌, arith, ltb, where_rows, ap,
  Bool-cases, inl, inr,
}
use fineract_ai_backend.Store.Rows.{JobEvent}
use fineract_ai_backend.Protocol.Gapless.{Numbered}
use fineract_ai_backend.Stream.{after, take}

ltb-true : (a b : ℕ) → ltb a b ≡ true → a < b
ltb-true a b h = ground arith

pub ltb-false : (a b : ℕ) → ltb a b ≡ false → b ≤ a
ltb-false a b h = ground arith

true-ltb : (a b : ℕ) → a < b → ltb a b ≡ true
true-ltb a b h = ground arith

-- No event of the list is at or before the cursor: all are selected.
where_all :
    (first cursor : ℕ) (es : List JobEvent) (last : ℕ)
    → Numbered first es last
    → cursor ≤ first
    → where_rows (λ e. ltb cursor e.sequence) es ≡ es
where_all first cursor [] last h le = refl
where_all first cursor (e ∷ es) last h le =
    let selected : ltb cursor e.sequence ≡ true = true-ltb cursor e.sequence (omega (arith, h.0)) in
    rw selected (ap (λ l. e ∷ l) (where_all (first + 1) cursor es last h.1 (omega arith)))

where-Numbered :
    (first cursor : ℕ) (es : List JobEvent) (last : ℕ)
    → Numbered first es last
    → first ≤ cursor
    → (m : ℕ) × Numbered cursor (where_rows (λ e. ltb cursor e.sequence) es) m
where-Numbered first cursor [] last h le = (cursor, refl)
where-Numbered first cursor (e ∷ es) last h le = elim (Bool-cases (ltb cursor e.sequence)) [
  | inl beyond ↦
      let at : cursor ≡ first = omega (arith, ltb-true cursor e.sequence beyond, h.0) in
      let rest = where_all (first + 1) cursor es last h.1 (omega arith) in
      rw beyond (rw rest (rw at (last, h)))
  | inr behind ↦ rw behind (
      where-Numbered (first + 1) cursor es last h.1
        (omega (arith, ltb-false cursor e.sequence behind, h.0)))
]

take-Numbered :
    (limit first : ℕ) (es : List JobEvent) (last : ℕ)
    → Numbered first es last
    → (m : ℕ) × Numbered first (take limit es) m
take-Numbered zero first es last h = (first, refl)
take-Numbered (suc limit) first [] last h = (last, h)
take-Numbered (suc limit) first (e ∷ es) last h =
    let rest = take-Numbered limit (first + 1) es last h.1 in (rest.0, (h.0, rest.1))

-- What a read gives begins right after the cursor and has no gap.
pub after-Numbered :
    (cursor limit : ℕ) (es : List JobEvent) (last : ℕ)
    → Numbered 0 es last
    → (m : ℕ) × Numbered cursor (after cursor limit es) m
unfolding after
after-Numbered cursor limit es last h =
    let found = where-Numbered 0 cursor es last h (omega arith) in
    take-Numbered limit cursor _ found.0 found.1
