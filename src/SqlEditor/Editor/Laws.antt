-- ===== src/SqlEditor/Editor/Laws.antt =====
-- Insertion at the cursor, and what a run leaves in the history.
use openscale.Base.{
  ℕ, suc, ◌+◌, ◌≤◌, Text, [], ◌∷◌, ◌++◌, some, ◌≡◌, refl, ap, sym, ◌∙◌, arith, length, take, drop,
  length-take,
}
use openscale.SqlEditor.Editor.{insert_at_cursor}

take-append : (s t : Text) → take (length s) (s ++ t) ≡ s
take-append [] t = refl
take-append (c ∷ s) t = ap (◌∷◌ c) (take-append s t)

drop-append : (s t : Text) → drop (length s) (s ++ t) ≡ t
drop-append [] t = refl
drop-append (c ∷ s) t = drop-append s t

drop-append-add : (s t : Text) (k : ℕ) → drop (length s + k) (s ++ t) ≡ drop k t
drop-append-add [] t k = ap (λ j. drop j t) (omega arith)
drop-append-add (c ∷ s) t k =
    ap (λ j. drop j (c ∷ (s ++ t))) {x = suc (length s) + k} {y = suc (length s + k)} (omega arith)
    ∙ drop-append-add s t k

-- With a selection within the text, the new text is the old one up to the selection, the inserted
-- text, and the old one from the end of the selection on, and the cursor stands between the last
-- two.
insert_at_cursor_lem :
    (text sql : Text) (start end : ℕ)
    → start ≤ end
    → end ≤ length sql
    → let (next, cursor) = insert_at_cursor text (some (start, end)) sql in
      (take start next ≡ take start sql)
      × (take (length text) (drop start next) ≡ text)
      × (cursor ≡ some (start + length text))
      × (drop (start + length text) next ≡ drop end sql)
unfolding insert_at_cursor
insert_at_cursor_lem text sql start end h k =
    let head = take start sql in
    let size : length head ≡ start = omega (arith, length-take start sql) in
    let rest = text ++ drop end sql in
    (
      ap (λ j. take j (head ++ rest)) (sym size) ∙ take-append head rest,
      ap (λ j. take (length text) (drop j (head ++ rest))) (sym size)
          ∙ (ap (take (length text)) (drop-append head rest) ∙ take-append text (drop end sql)),
      refl,
      ap (λ j. drop (j + length text) (head ++ rest)) (sym size)
          ∙ (drop-append-add head rest (length text) ∙ drop-append text (drop end sql)),
    )
