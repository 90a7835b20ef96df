-- ===== src/Validate/Served.antt =====
-- Every block of a served document is sound, whether the document passed or was replaced
-- (apply and fallback, crates/chat/src/engine/validate.rs).
use fineract_ai_backend.Prelude.{
  ◌≡◌, refl, sym, ◌∙◌, inl, String, false, List, [], ◌∷◌, ◌++◌, All, All-append,
}
use fineract_ai_backend.Prelude.Json.{Json}
use fineract_ai_backend.Prelude.Sorted.{contains_text}
use fineract_ai_backend.Engine.Settle.{SettledResponse}
use fineract_ai_backend.Validate.Claims.{Ledger, per_block_completeness, aggregate}
use fineract_ai_backend.Validate.Evidence.{flat_map, grounded_numerals, excluded_numerals}
use fineract_ai_backend.Validate.Rules.{
  Failure, blocks_of, shape_failures_of, shape_failures, chart_failures_of, chart_failures,
  numeral_failures_of, numeral_failures, overclaim_failures, unexplained_failures, slot_failures,
  failures,
}
use fineract_ai_backend.Validate.Apply.{
  apply, conclude, dropped, kept_blocks, withheld_block, block, report_of,
}
use fineract_ai_backend.Validate.Honest.{append-nil_parts, items_list-array}
use fineract_ai_backend.Validate.Dropped.{
  is_named, is_named-append, contains_text-sorted_set, false_parts, kept-nil,
}
use fineract_ai_backend.Validate.Shape.{
  IsWellShaped, shape_failures_of-nil, shape_failures_of-NameBlock,
}
use fineract_ai_backend.Validate.Drawn.{IsDrawable, chart_failures_of-nil}
use fineract_ai_backend.Validate.Backed.{
  IsBacked, numeral_failures_of-nil, numeral_failures_of-NameBlock, chart_failures_of-NameBlock,
}

unnamed_append :
    (fs gs : List Failure) (x : String)
    → is_named (fs ++ gs) x ≡ false
    → (is_named fs x ≡ false) × (is_named gs x ≡ false)
unnamed_append fs gs x h =
    false_parts (is_named fs x) (is_named gs x) (sym (is_named-append fs gs x) ∙ h)

flat_map-nil :
    (per : Json → List Failure) (bs : List Json) → flat_map per bs ≡ [] → All (λ b. per b ≡ []) bs
flat_map-nil per [] h = tt
flat_map-nil per (b ∷ bs) h =
    let (here, rest) = append-nil_parts (per b) _ h in (here, flat_map-nil per bs rest)

module _ (to_string : Json → String) (ledger : Ledger) (composed : List Json) where
  -- A block that is well shaped, is drawable if it is a chart, and uses only numerals that the
  -- composed document and the ledger give it.
  abbrev pub IsSound : Json → Type 0
  IsSound b =
      IsWellShaped b
      × IsDrawable to_string ledger b
      × IsBacked (grounded_numerals composed ledger.derivations)
          (excluded_numerals ledger.parameters) b

  numerals_of : Json → List Failure
  numerals_of =
      numeral_failures_of (grounded_numerals composed ledger.derivations)
        (excluded_numerals ledger.parameters)

  All-IsSound :
      (bs : List Json)
      → All (λ b. shape_failures_of b ≡ []) bs
      → All (λ b. chart_failures_of to_string ledger b ≡ []) bs
      → All (λ b. numerals_of b ≡ []) bs
      → All IsSound bs
  unfolding numerals_of
  All-IsSound [] s c n = tt
  All-IsSound (b ∷ bs) s c n =
      let shape = shape_failures_of-nil b s.0 in
      (
        (
          shape,
          chart_failures_of-nil to_string ledger b shape c.0,
          numeral_failures_of-nil _ _ b n.0,
        ),
        All-IsSound bs s.1 c.1 n.1,
      )

  withheld_block-IsSound : (fs : List Failure) → IsSound (withheld_block fs)
  unfolding withheld_block block
  withheld_block-IsSound fs =
      ((refl, ("validation_rejected", refl, refl), refl, inl refl), inl refl, inl refl)

  -- The failures of all rules, in the order in which they are collected.
  abbrev collected : List Failure → List Failure → List Failure → List Failure
  collected over unexplained slots =
      flat_map shape_failures_of composed
      ++ (flat_map (chart_failures_of to_string ledger) composed
          ++ (over ++ (unexplained ++ (slots ++ flat_map numerals_of composed))))

  unnamed_parts :
      (over unexplained slots : List Failure) (x : String)
      → is_named (collected over unexplained slots) x ≡ false
      → (is_named (flat_map shape_failures_of composed) x ≡ false)
        × (is_named (flat_map (chart_failures_of to_string ledger) composed) x ≡ false)
        × (is_named (flat_map numerals_of composed) x ≡ false)
  unnamed_parts over unexplained slots x h =
      let (s, h1) = unnamed_append (flat_map shape_failures_of composed) _ x h in
      let (c, h2) =
        unnamed_append (flat_map (chart_failures_of to_string ledger) composed) _ x h1 in
      let (_, h3) = unnamed_append over _ x h2 in
      let (_, h4) = unnamed_append unexplained _ x h3 in
      let (_, n) = unnamed_append slots _ x h4 in (s, c, n)

  passed-IsSound :
      (over unexplained slots : List Failure)
      → collected over unexplained slots ≡ []
      → All IsSound composed
  passed-IsSound over unexplained slots h =
      let (s, h1) = append-nil_parts (flat_map shape_failures_of composed) _ h in
      let (c, h2) =
        append-nil_parts (flat_map (chart_failures_of to_string ledger) composed) _ h1 in
      let (_, h3) = append-nil_parts over _ h2 in
      let (_, h4) = append-nil_parts unexplained _ h3 in
      let (_, n) = append-nil_parts slots _ h4 in
      All-IsSound composed (flat_map-nil _ composed s) (flat_map-nil _ composed c)
        (flat_map-nil _ composed n)

  kept-IsSound :
      (over unexplained slots : List Failure)
      → All IsSound (kept_blocks (collected over unexplained slots) composed)
  unfolding kept_blocks numerals_of
  kept-IsSound over unexplained slots =
      let fs = collected over unexplained slots in
      let parts = λ (x : String) (e : contains_text x (dropped fs) ≡ false).
        unnamed_parts over unexplained slots x (sym (contains_text-sorted_set x _) ∙ e) in
      All-IsSound (kept_blocks fs composed)
        (kept-nil shape_failures_of shape_failures_of-NameBlock (λ x. contains_text x (dropped fs))
          composed (λ x e. (parts x e).0))
        (kept-nil (chart_failures_of to_string ledger)
          (chart_failures_of-NameBlock to_string ledger) (λ x. contains_text x (dropped fs))
          composed (λ x e. (parts x e).1))
        (kept-nil numerals_of (numeral_failures_of-NameBlock _ _)
          (λ x. contains_text x (dropped fs)) composed (λ x e. (parts x e).2))

conclude-AreSound :
    (digest to_string : Json → String) (response : SettledResponse) (ledger : Ledger)
    (report : Json) (fs : List Failure)
    → (fs ≡ []
        → All (IsSound to_string ledger (blocks_of response.blocks)) (blocks_of response.blocks))
    → All
        (IsSound to_string ledger (blocks_of response.blocks))
        (kept_blocks fs (blocks_of response.blocks))
    → All
        (IsSound to_string ledger (blocks_of response.blocks))
        (blocks_of (conclude digest response ledger report fs).served.blocks)
unfolding conclude
conclude-AreSound digest to_string response ledger report [] passed kept = passed refl
conclude-AreSound digest to_string response ledger report (f ∷ fs) passed kept =
    rw
      (items_list-array
        (kept_blocks (f ∷ fs) (blocks_of response.blocks) ++ withheld_block (f ∷ fs) ∷ []))
      (All-append _ (kept_blocks (f ∷ fs) (blocks_of response.blocks)) _ kept
        (withheld_block-IsSound to_string ledger (blocks_of response.blocks) (f ∷ fs), tt))

-- Every block of the document that is served, whether it passed the checks or was replaced, is of a
-- known type, has an id and the schema's version, has the references that its content needs, can be
-- drawn over the ledger's rows if it is a chart, and, if it is prose, uses only numerals that the
-- composed document, a derivation or a parameter gives.
pub apply-AreSound :
    (digest to_string : Json → String) (response : SettledResponse) (ledger : Ledger)
    → All
        (IsSound to_string ledger (blocks_of response.blocks))
        (blocks_of (apply digest to_string response ledger).served.blocks)
unfolding apply failures shape_failures chart_failures numeral_failures numerals_of
apply-AreSound digest to_string response ledger =
    let blocks = blocks_of response.blocks in
    let per_block = per_block_completeness blocks ledger in
    let computed = aggregate per_block in
    let over = overclaim_failures response.completeness computed per_block in
    let unexplained = unexplained_failures response.completeness response.completeness_reason in
    let slots = slot_failures blocks ledger in
    conclude-AreSound digest to_string response ledger
      (report_of computed response per_block
        (failures to_string response ledger computed per_block))
      (collected to_string ledger blocks over unexplained slots)
      (passed-IsSound to_string ledger blocks over unexplained slots)
      (kept-IsSound to_string ledger blocks over unexplained slots)
