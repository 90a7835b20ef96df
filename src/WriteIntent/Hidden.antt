-- ===== src/WriteIntent/Hidden.antt =====
-- Text around a write statement or a scheduler command does not hide it
-- (crates/chat/src/engine/write_intent.rs).
use Prim.Native.Char.{Char}
use mathlib.Core.List.{map-append}
use fineract_ai_backend.Prelude.{
  ℕ, zero, suc, ◌+◌, ◌≡◌, refl, ap, ◌∙◌, ◌⊎◌, inl, inr, String, Bool, true, false, ◌&&◌, ◌||◌, List,
  [], ◌∷◌, ◌++◌, any, map, arith, Bool-cases,
}
use fineract_ai_backend.Validate.Numerals.{Chars, text_of}
use fineract_ai_backend.WriteIntent.Words.{
  Unicode, is_separator, prefix, split, nonempty, tokenize, scheduler_nouns, rerun_verbs,
}
use fineract_ai_backend.WriteIntent.Guard.{
  any_within, is_word, is_in, RerunPair, rerun_pairs, has_pair, scheduler_rerun, command_on_entity,
  SqlVerb, sql_verb, next_is, writes, sql_write, is_write_request,
}

or_left : (a b : Bool) → a ≡ true → (a || b) ≡ true
or_left a b h = ground arith

or_right : (a b : Bool) → b ≡ true → (a || b) ≡ true
or_right a b h = ground arith

or_cases : (a b : Bool) → (a || b) ≡ true → (a ≡ true) ⊎ (b ≡ true)
or_cases true b h = inl refl
or_cases false b h = inr h

and_parts : (a b : Bool) → (a && b) ≡ true → (a ≡ true) × (b ≡ true)
and_parts a b h = ground arith

and_both : (a b : Bool) → a ≡ true → b ≡ true → (a && b) ≡ true
and_both a b h k = ground arith

module _ {A : Type 0} (test : A → Bool) where
  any-front : (xs ys : List A) → any test ys ≡ true → any test (xs ++ ys) ≡ true
  any-front [] ys h = h
  any-front (x ∷ xs) ys h = or_right (test x) _ (any-front xs ys h)

  any-end : (xs ys : List A) → any test xs ≡ true → any test (xs ++ ys) ≡ true
  any-end [] ys h = cc
  any-end (x ∷ xs) ys h = elim (or_cases (test x) (any test xs) h) [
    | inl here ↦ or_left (test x) _ here
    | inr there ↦ or_right (test x) _ (any-end xs ys there)
  ]

next_is-end :
    (test : String → Bool) (xs ys : List String)
    → next_is test xs ≡ true
    → next_is test (xs ++ ys) ≡ true
next_is-end test [] ys h = cc
next_is-end test (x ∷ xs) ys h = h

writes-end : (v : SqlVerb) (xs ys : List String) → writes v xs ≡ true → writes v (xs ++ ys) ≡ true
writes-end SqlVerb.ddl xs ys h = next_is-end _ xs ys h
writes-end SqlVerb.delete xs ys h = next_is-end _ xs ys h
writes-end SqlVerb.insert xs ys h = next_is-end _ xs ys h
writes-end SqlVerb.update xs ys h = any-end _ xs ys h
writes-end SqlVerb.privilege xs ys h = next_is-end _ xs ys h
writes-end SqlVerb.other xs ys h = cc

sql_write-end : (xs ys : List String) → sql_write xs ≡ true → sql_write (xs ++ ys) ≡ true
unfolding sql_write
sql_write-end [] ys h = cc
sql_write-end (x ∷ xs) ys h = elim (or_cases (writes (sql_verb x) xs) (sql_write xs) h) [
  | inl here ↦ or_left (writes (sql_verb x) (xs ++ ys)) _ (writes-end (sql_verb x) xs ys here)
  | inr there ↦ or_right (writes (sql_verb x) (xs ++ ys)) _ (sql_write-end xs ys there)
]

sql_write-front : (xs ys : List String) → sql_write ys ≡ true → sql_write (xs ++ ys) ≡ true
unfolding sql_write
sql_write-front [] ys h = h
sql_write-front (x ∷ xs) ys h =
    or_right (writes (sql_verb x) (xs ++ ys)) _ (sql_write-front xs ys h)

any_within-end :
    (test : String → Bool) (n : ℕ) (xs ys : List String)
    → any_within test n xs ≡ true
    → any_within test n (xs ++ ys) ≡ true
any_within-end test zero xs ys h = h
any_within-end test (suc n) [] ys h = cc
any_within-end test (suc n) (x ∷ xs) ys h = elim (or_cases (test x) (any_within test n xs) h) [
  | inl here ↦ or_left (test x) _ here
  | inr there ↦ or_right (test x) _ (any_within-end test n xs ys there)
]

module _ (pair : RerunPair) where
  has_pair-front : (xs ys : List String) → has_pair ys pair ≡ true → has_pair (xs ++ ys) pair ≡ true
  unfolding has_pair
  has_pair-front [] ys h = h
  has_pair-front (x ∷ xs) ys h = or_right _ (has_pair (xs ++ ys) pair) (has_pair-front xs ys h)

  has_pair-end : (xs ys : List String) → has_pair xs pair ≡ true → has_pair (xs ++ ys) pair ≡ true
  unfolding has_pair
  has_pair-end [] ys h = cc
  has_pair-end (x ∷ xs) ys h =
      elim (or_cases (is_word pair.first x && any_within (is_word pair.second) (pair.gap + 1) xs)
        (has_pair xs pair) h) [
          | inl here ↦
              let (first, second) = and_parts (is_word pair.first x) _ here in
              or_left _ (has_pair (xs ++ ys) pair) (
                and_both (is_word pair.first x) _ first
                  (any_within-end (is_word pair.second) (pair.gap + 1) xs ys second))
          | inr there ↦ or_right _ (has_pair (xs ++ ys) pair) (has_pair-end xs ys there)
        ]

any-weaken :
    {A : Type 0} (p q : A → Bool) (xs : List A)
    → ((x : A) → p x ≡ true → q x ≡ true)
    → any p xs ≡ true
    → any q xs ≡ true
any-weaken p q [] keep h = h
any-weaken p q (x ∷ xs) keep h = elim (or_cases (p x) (any p xs) h) [
  | inl here ↦ or_left (q x) _ (keep x here)
  | inr there ↦ or_right (q x) _ (any-weaken p q xs keep there)
]

module _ (before tokens after : List String) where
  scheduler_rerun-around :
      scheduler_rerun tokens ≡ true → scheduler_rerun (before ++ (tokens ++ after)) ≡ true
  unfolding scheduler_rerun
  scheduler_rerun-around h =
      let (noun, verb) = and_parts (any (is_in scheduler_nouns) tokens) _ h in
      let widen = λ (test : String → Bool) (k : any test tokens ≡ true).
        any-front test before (tokens ++ after) (any-end test tokens after k) in
      and_both (any (is_in scheduler_nouns) (before ++ (tokens ++ after))) _ (widen _ noun)
        (elim (or_cases (any (is_in rerun_verbs) tokens) _ verb) [
          | inl single ↦
              or_left (any (is_in rerun_verbs) (before ++ (tokens ++ after))) _ (widen _ single)
          | inr pair ↦ or_right (any (is_in rerun_verbs) (before ++ (tokens ++ after))) _ (
              any-weaken (has_pair tokens) (has_pair (before ++ (tokens ++ after))) rerun_pairs
                (λ p k. has_pair-front p before (tokens ++ after) (has_pair-end p tokens after k))
                pair)
        ])

  sql_write-around : sql_write tokens ≡ true → sql_write (before ++ (tokens ++ after)) ≡ true
  sql_write-around h = sql_write-front before (tokens ++ after) (sql_write-end tokens after h)

-- The pieces are at least one.
split-cons :
    (test : Char → Bool) (cs : Chars) → (p : Chars) × (ps : List Chars) × (split test cs ≡ p ∷ ps)
split-cons test [] = ([], [], refl)
split-cons test (c ∷ cs) = elim (Bool-cases (test c)) [
  | inl cut ↦ ([], split test cs, rw cut refl)
  | inr kept ↦ let (p, ps, e) = split-cons test cs in (c ∷ p, ps, rw (kept, e) refl)
]

prefix-append :
    (c : Char) (ps qs : List Chars) (p : Chars) (rest : List Chars)
    → ps ≡ p ∷ rest
    → prefix c (ps ++ qs) ≡ prefix c ps ++ qs
prefix-append c ps qs p rest e = rw e refl

split-append :
    (test : Char → Bool) (xs ys : Chars) (s : Char)
    → test s ≡ true
    → split test (xs ++ s ∷ ys) ≡ split test xs ++ split test ys
split-append test [] ys s h = rw h refl
split-append test (x ∷ xs) ys s h =
    let ih = split-append test xs ys s h in
    elim (Bool-cases (test x)) [
      | inl cut ↦ rw cut (ap (λ ps. [] ∷ ps) ih)
      | inr kept ↦
          let (p, ps, e) = split-cons test xs in
          rw kept (ap (prefix x) ih ∙ prefix-append x (split test xs) (split test ys) p ps e)
    ]

nonempty-append : (ps qs : List Chars) → nonempty (ps ++ qs) ≡ nonempty ps ++ nonempty qs
nonempty-append [] qs = refl
nonempty-append ([] ∷ ps) qs = nonempty-append ps qs
nonempty-append ((c ∷ cs) ∷ ps) qs = ap (λ rs. (c ∷ cs) ∷ rs) (nonempty-append ps qs)

tokenize-append :
    (unicode : Unicode) (xs ys : Chars) (s : Char)
    → is_separator unicode s ≡ true
    → tokenize unicode (xs ++ s ∷ ys) ≡ tokenize unicode xs ++ tokenize unicode ys
unfolding tokenize
tokenize-append unicode xs ys s h =
    let lower = λ (piece : Chars). text_of (unicode.to_lowercase piece) in
    ap (λ ps. map lower (nonempty ps)) (split-append (is_separator unicode) xs ys s h)
    ∙ ap (map lower)
        (nonempty-append (split (is_separator unicode) xs) (split (is_separator unicode) ys))
    ∙ map-append lower (nonempty (split (is_separator unicode) xs))
        (nonempty (split (is_separator unicode) ys))

-- A text that is a write statement or a scheduler command is refused wherever it stands in a request:
-- whatever text precedes and follows it, behind a character that separates words on either side.
pub is_write_request-around :
    (unicode : Unicode) (before text after : Chars) (s s' : Char)
    → is_separator unicode s ≡ true
    → is_separator unicode s' ≡ true
    → (sql_write (tokenize unicode text) || scheduler_rerun (tokenize unicode text)) ≡ true
    → is_write_request unicode (before ++ s ∷ (text ++ s' ∷ after)) ≡ true
unfolding is_write_request
is_write_request-around unicode before text after s s' cut cut' h =
    let words = tokenize unicode text in
    let all = tokenize unicode before ++ (words ++ tokenize unicode after) in
    let same =
      tokenize-append unicode before (text ++ s' ∷ after) s cut
      ∙ ap (λ ws. tokenize unicode before ++ ws) (tokenize-append unicode text after s' cut') in
    rw same (
      or_right (command_on_entity all) (sql_write all || scheduler_rerun all)
        (elim (or_cases (sql_write words) (scheduler_rerun words) h) [
          | inl sql ↦
              or_left (sql_write all) (scheduler_rerun all)
                (sql_write-around (tokenize unicode before) words (tokenize unicode after) sql)
          | inr rerun ↦ or_right (sql_write all) (scheduler_rerun all) (
              scheduler_rerun-around (tokenize unicode before) words (tokenize unicode after) rerun)
        ]))
