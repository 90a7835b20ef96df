-- ===== src/WriteIntent/Guard.antt =====
-- is_write_request and is_scheduler_rerun_request (crates/chat/src/engine/write_intent.rs).
use text.Mathlib.Text.{◌==◌ as str_eq}
use fineract_ai_backend.Prelude.{
  ℕ, zero, suc, ◌+◌, String, Bool, false, not, ◌&&◌, ◌||◌, List, [], ◌∷◌, any, where_rows,
  if◌then◌else◌,
}
use fineract_ai_backend.Prelude.Sorted.{contains_text}
use fineract_ai_backend.Validate.Numerals.{Chars}
use fineract_ai_backend.WriteIntent.Words.{
  Unicode, tokenize, leading_filler, mutation_verbs, determiners, entities, ddl_objects, privileges,
  scheduler_nouns, rerun_verbs, object_window,
}

-- `take(n).any(test)`
abbrev pub any_within : (String → Bool) → ℕ → List String → Bool
any_within test zero words = false
any_within test (suc n) [] = false
any_within test (suc n) (word ∷ words) = test word || any_within test n words

abbrev pub is_word : String → String → Bool
is_word known word = str_eq word known

abbrev pub is_in : List String → String → Bool
is_in known word = contains_text word known

-- Two words of which the second follows within so many others.
pub record RerunPair : Type 0 where
  pub first : String
  pub second : String
  pub gap : ℕ

abbrev pub rerun_pairs : List RerunPair
rerun_pairs =
    record { first = "re"; second = "run"; gap = 0 }
    ∷ record { first = "run"; second = "again"; gap = 4 }
    ∷ record { first = "jalankan"; second = "ulang"; gap = 2 }
    ∷ record { first = "jalankan"; second = "lagi"; gap = 3 }
    ∷ []

unfoldable pub has_pair : List String → RerunPair → Bool
has_pair [] pair = false
has_pair (word ∷ words) pair =
    (is_word pair.first word && any_within (is_word pair.second) (pair.gap + 1) words)
    || has_pair words pair

unfoldable pub scheduler_rerun : List String → Bool
unfolding has_pair
scheduler_rerun tokens =
    any (is_in scheduler_nouns) tokens
    && (any (is_in rerun_verbs) tokens || any (has_pair tokens) rerun_pairs)

abbrev pub skip_filler : List String → List String
skip_filler [] = []
skip_filler (word ∷ words) = if is_in leading_filler word then skip_filler words else word ∷ words

abbrev pub commands_entity : List String → Bool
commands_entity [] = false
commands_entity (verb ∷ rest) =
    if is_in mutation_verbs verb
    then any_within (is_in entities) object_window
        (where_rows (λ word. not (is_in determiners word)) rest)
    else false

unfoldable pub command_on_entity : List String → Bool
command_on_entity tokens = commands_entity (skip_filler tokens)

-- The arms of the match of sql_write.
pub data SqlVerb : Type 0 where
  ddl delete insert update privilege other : SqlVerb

abbrev pub sql_verb : String → SqlVerb
sql_verb word =
    if is_in ("create" ∷ "drop" ∷ "truncate" ∷ "alter" ∷ []) word
    then SqlVerb.ddl
    else if is_word "delete" word
    then SqlVerb.delete
    else if is_word "insert" word
    then SqlVerb.insert
    else if is_word "update" word
    then SqlVerb.update
    else if is_in ("grant" ∷ "revoke" ∷ []) word
    then SqlVerb.privilege
    else SqlVerb.other

abbrev pub next_is : (String → Bool) → List String → Bool
next_is test [] = false
next_is test (word ∷ words) = test word

abbrev pub writes : SqlVerb → List String → Bool
writes SqlVerb.ddl rest = next_is (is_in ddl_objects) rest
writes SqlVerb.delete rest = next_is (is_word "from") rest
writes SqlVerb.insert rest = next_is (is_word "into") rest
writes SqlVerb.update rest = any (is_word "set") rest
writes SqlVerb.privilege rest = next_is (is_in privileges) rest
writes SqlVerb.other rest = false

unfoldable pub sql_write : List String → Bool
sql_write [] = false
sql_write (word ∷ words) = writes (sql_verb word) words || sql_write words

unfoldable pub is_write_request : Unicode → Chars → Bool
unfolding command_on_entity sql_write scheduler_rerun tokenize
is_write_request unicode text =
    let tokens = tokenize unicode text in
    command_on_entity tokens || (sql_write tokens || scheduler_rerun tokens)

unfoldable pub is_scheduler_rerun_request : Unicode → Chars → Bool
unfolding scheduler_rerun tokenize
is_scheduler_rerun_request unicode text = scheduler_rerun (tokenize unicode text)
