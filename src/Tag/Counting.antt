-- ===== src/Tag/Counting.antt =====
-- How the processor goes through the tags of a message.
use flowra.Base.{
  ℕ, ◌+◌, Text, Uuid, Option, List, [], ◌∷◌, ◌++◌, ◌≡◌, refl, arith, ok, err, length, inl, inr,
  Result-cases,
}
use flowra.Tag.Types.{ParsedTag, EntityType}
use flowra.Tag.Processor.{kind_of, created_entity, check_tag, process_tags, process_message}
use flowra.Tag.Parser.{parse}

module _ (time_parse : Text → Text → Option ℕ) (chat_id : Uuid) where
  -- The entity type that the tags after `ts` are checked against.
  unfoldable entity_after : List ParsedTag → EntityType → EntityType
  entity_after [] e = e
  entity_after (t ∷ ts) e = elim (check_tag time_parse chat_id (kind_of t.key) e t.key t.value) [
    | ok a ↦ entity_after ts (created_entity (kind_of t.key) e)
    | err f ↦ entity_after ts e
  ]

  -- Every tag ends as one application or one error.
  pub length-process_tags :
      (ts : List ParsedTag) (e : EntityType)
      → let r = process_tags time_parse chat_id ts e in
        length r.applied_tags + length r.errors ≡ length ts
  unfolding process_tags
  length-process_tags [] e = refl
  length-process_tags (t ∷ ts) e =
      elim (Result-cases (check_tag time_parse chat_id (kind_of t.key) e t.key t.value)) [
        | inl (a, p) ↦
            let ih = length-process_tags ts (created_entity (kind_of t.key) e) in ground arith
        | inr (f, p) ↦ let ih = length-process_tags ts e in ground arith
      ]

  -- Processing is piecewise: the tags of a later part are checked against the entity that the earlier
  -- part left, and the results stand one behind the other.
  process_tags-append :
      (xs ys : List ParsedTag) (e : EntityType)
      → let r = process_tags time_parse chat_id (xs ++ ys) e in
        let r₁ = process_tags time_parse chat_id xs e in
        let r₂ = process_tags time_parse chat_id ys (entity_after xs e) in
        (r.applied_tags ≡ r₁.applied_tags ++ r₂.applied_tags) × (r.errors ≡ r₁.errors ++ r₂.errors)
  unfolding process_tags entity_after
  process_tags-append [] ys e = (refl, refl)
  process_tags-append (t ∷ xs) ys e =
      elim (Result-cases (check_tag time_parse chat_id (kind_of t.key) e t.key t.value)) [
        | inl (a, p) ↦
            let ih = process_tags-append xs ys (created_entity (kind_of t.key) e) in ground arith
        | inr (f, p) ↦ let ih = process_tags-append xs ys e in ground arith
      ]

  -- Each tag that the parser finds in a message ends as one application or one error, and the plain
  -- text is the parser's.
  pub length-process_message :
      (message : Text) (e : EntityType)
      → let r = process_message time_parse chat_id message e in
        (length r.applied_tags + length r.errors ≡ length (parse message).tags)
        × (r.plain_text ≡ (parse message).plain_text)
  unfolding process_message
  length-process_message message e = (length-process_tags (parse message).tags e, refl)
