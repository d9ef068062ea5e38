-- ===== src/Response/Lines/Refine.antt =====
-- for_each_field runs its callback on the fields of the final block, in order.
use cofetch.Base.{
  ℕ, zero, suc, ◌+◌, ◌-◌, ◌≤◌, ◌≡◌, refl, ◌∙◌, List, [], ◌∷◌, ltb, take, drop, length, arith,
  Bool-cases, inl, inr, take_all, drop_all, nil_of_length, length-drop, drop-drop, ltb→le,
}
use cofetch.Response.Views.{find}
use cofetch.Response.Fields.{visit_line, field_loop, for_each_field, remove_cr}
use cofetch.Response.Lines.Find.{find_at-FindsCut, lines-cut-none, lines-cut-some}
use cofetch.Response.Lines.Trim.{trim-strip}
use cofetch.Response.Lines.Blocks.{lines-rfind}
use cofetch.Response.Lines.{lines, fields_of, final_fields, run_fields}
use cofetch.Response.{Bytes, Response}

module _ {ℓ} {S : Type ℓ} (f : Bytes → Bytes → S → S) where
  visit_line_lem :
      (l : Bytes) (ls : List Bytes) (s : S)
      → run_fields f (fields_of ls) (visit_line f l s) ≡ run_fields f (fields_of (l ∷ ls)) s
  unfolding visit_line find
  visit_line_lem l ls s = elim (find_at-FindsCut b':' 0 (remove_cr l)) [
    | inl (e, c) ↦ rw (e, c)
    | inr (k, j, at, within, e, c) ↦
        let j' : j ≡ k = omega arith in
        let k' : k + 1 ≡ suc k = omega arith in
        rw
          (e, c, j', k', trim-strip (take k (remove_cr l)), trim-strip (drop (suc k) (remove_cr l)))
  ]

  -- The text ends here: one more, empty, line has no field.
  run_fields-end : (fuel : ℕ) (sv : Bytes) (s : S) → field_loop f fuel sv (length sv) s ≡ s
  unfolding field_loop
  run_fields-end zero sv s = refl
  run_fields-end (suc fuel) sv s = ground arith

  field_loop_lem :
      (fuel pos : ℕ) (sv : Bytes) (s : S)
      → length (drop pos sv) ≤ fuel
      → field_loop f fuel sv pos s ≡ run_fields f (fields_of (lines (drop pos sv))) s
  unfolding field_loop find remove_cr
  field_loop_lem zero pos sv s h = rw (nil_of_length (drop pos sv) h)
  field_loop_lem (suc fuel) pos sv s h = elim (Bool-cases (ltb pos (length sv))) [
    | inr past ↦ rw (past, drop_all pos sv (ltb→le pos (length sv) past))
    | inl inside ↦ elim (find_at-FindsCut b'\n' pos (drop pos sv)) [
      | inl (e, c) ↦
          rw (inside, e, lines-cut-none (drop pos sv) c)
            (rw (take_all (length sv - pos) (drop pos sv) (omega (arith, length-drop pos sv))) (
              run_fields-end fuel sv (visit_line f (drop pos sv) s)
              ∙ visit_line_lem (drop pos sv) [] s))
      | inr (k, j, at, within, e, c) ↦
          let more = drop-drop (suc k) pos (j + 1) sv (omega arith) in
          let k' : j - pos ≡ k = omega arith in
          rw (inside, e, lines-cut-some (drop pos sv) _ _ c, more, k')
            (field_loop_lem fuel (j + 1) sv (visit_line f (take k (drop pos sv)) s)
                (omega (arith, length-drop pos sv, length-drop (j + 1) sv))
              ∙ visit_line_lem (take k (drop pos sv)) (lines (drop (j + 1) sv)) s)
    ]
  ]

  -- for_each_field runs its callback on the fields of the final response, in order and each once:
  -- the lines from the last status line on, cut at their first colon and trimmed.
  pub for_each_field_lem :
      (r : Response) (s : S) → for_each_field f r s ≡ run_fields f (final_fields r.header_data) s
  unfolding for_each_field
  for_each_field_lem r s = elim (lines-rfind r.header_data) [
    | inl (e, h) ↦
        rw (e, ← h) (field_loop_lem (length r.header_data) 0 r.header_data s (omega arith))
    | inr (k, e, h) ↦
        rw (e, ← h)
          (field_loop_lem (length r.header_data) (k + 1) r.header_data s
            (omega (arith, length-drop (k + 1) r.header_data)))
  ]
