-- ===== src/Proposal/Model.antt =====
-- The data of a proposal (crates/chat/src/engine/proposal.rs).
use fineract_ai_backend.Prelude.{ℕ, String, Bool, true, false, Option, none, List, [], ◌∷◌}
use fineract_ai_backend.Prelude.Json.{Json}

pub data Decision : Type 0 where
  planned : Decision
  abstain : Decision
  no_fit : Decision

pub data Confidence : Type 0 where
  low : Confidence
  medium : Confidence
  high : Confidence

pub record Source : Type 0 where
  pub quote : String
  pub occurrence : ℕ

pub record Argument : Type 0 where
  pub value : Json
  pub source : Source

pub data Slot : Type 0 where
  value : Json → Source → Slot
  date_phrase : Source → Slot
  probe : List (String × Argument) → Slot
  node_output : String → String → Slot

pub record Node : Type 0 where
  pub id : String
  pub capability_id : String
  pub depends_on : List String
  pub slots : List (String × Slot)

pub record Proposal : Type 0 where
  pub schema_version : ℕ
  pub decision : Decision
  pub confidence : Confidence
  pub nodes : List Node

pub record Validation : Type 0 where
  pub code : String
  pub line : Option ℕ
  pub column : Option ℕ
  pub category : Option String

-- Validation::new
abbrev pub validation : String → Validation
validation code = record { code = code; line = none; column = none; category = none }

-- serde_json::error::Category
pub data Category : Type 0 where
  syntax : Category
  mismatch : Category
  eof : Category
  io : Category

abbrev pub category_text : Category → String
category_text syntax = "syntax"
category_text mismatch = "duplicate_key_or_invalid_type"
category_text eof = "unexpected_end"
category_text io = "io"

abbrev pub is_planned : Decision → Bool
is_planned planned = true
is_planned _ = false

abbrev pub has_no_nodes : List Node → Bool
has_no_nodes [] = true
has_no_nodes (n ∷ ns) = false
