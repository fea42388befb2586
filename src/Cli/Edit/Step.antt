-- ===== src/Cli/Edit/Step.antt =====
-- kernel/src/cli.c: a whole round of the line editor.
use so_rtos.Base.{
  ℕ, zero, suc, ◌≡◌, refl, arith, Bool, true, false, ◌&&◌, ◌||◌, ◌==◌, ltb, leb, [], ◌∷◌, ap, sym,
  ◌∙◌, subst, ◌+◌, ◌-◌, if◌then◌else◌, update, if_false,
}
use so_rtos.Cli.Edit.{Editor, Answer, arrow, plain_key, key_step}
use so_rtos.Cli.Edit.Shift.{update-other, chars, chars_before, chars-agree, chars_before-agree}
use so_rtos.Cli.Edit.Keys.{
  line-eq, Line, line_of, IsEditor, go_left, go_right, move, plain_meaning, meaning, Shows,
  choice-Shows, backspace-Shows, printable-Shows, left-Shows, right-Shows,
}

kept-Shows :
    (e : Editor) (a : Answer) (x : ℕ)
    → IsEditor e
    → a.editor ≡ record e { esc_state = x }
    → Shows a (record (line_of e) { escape = x })
kept-Shows e a x (low, high) q = record {
  line = ap line_of q;
  valid = subst IsEditor (sym q) (low, high);
}

-- A key that moves nothing at the end of the line.
stuck_left :
    (e : Editor) (a : Answer)
    → IsEditor e
    → e.cursor_pos ≡ 0
    → a.editor ≡ record e { esc_state = 0 }
    → Shows a (go_left (line_of e).before (line_of e).after)
stuck_left e a v q r =
    subst (Shows a)
      (ap (λ b. record { before = b; after = (line_of e).after; escape = 0 })
          (ap (chars_before e.line_buffer) q)
        ∙ sym (ap (λ n. go_left (chars_before e.line_buffer n) (line_of e).after) q))
      (kept-Shows e a 0 v r)

stuck_right :
    (e : Editor) (a : Answer)
    → IsEditor e
    → e.line_pos - e.cursor_pos ≡ 0
    → a.editor ≡ record e { esc_state = 0 }
    → Shows a (go_right (line_of e).before (line_of e).after)
stuck_right e a v q r =
    subst (Shows a)
      (ap (λ m. record { before = (line_of e).before; after = m; escape = 0 })
          (ap (λ n. chars n e.line_buffer e.cursor_pos) q)
        ∙ sym (ap (λ n. go_right (line_of e).before (chars n e.line_buffer e.cursor_pos)) q))
      (kept-Shows e a 0 v r)

-- The test of a key and of room for its move, against the meaning of the key.
guarded :
    (b p : Bool) (x y : Answer) (l m : Line)
    → (b ≡ true → p ≡ true → Shows x l)
    → (b ≡ true → p ≡ false → Shows y l)
    → (b ≡ false → Shows y m)
    → Shows (if b && p then x else y) (if b then l else m)
guarded true true x y l m f g h = f refl refl
guarded true false x y l m f g h = g refl refl
guarded false p x y l m f g h = h refl

pred_of : (n : ℕ) → ltb 0 n ≡ true → (m : ℕ) × (n ≡ suc m)
pred_of zero h = absurd (ground (arith, h))
pred_of (suc m) h = (m, refl)

arrow-Shows : (e : Editor) (c : ℕ) → IsEditor e → Shows (arrow e c) (move (line_of e) c)
unfolding arrow
arrow-Shows e c v =
    let idle : Answer = record { editor = record e { esc_state = 0 }; output = []; runs = false } in
    let to_right : Answer = record {
      editor = record e { esc_state = 0; cursor_pos = e.cursor_pos + 1 };
      output = (27 ∷ 91 ∷ 67 ∷ []) ∷ [];
      runs = false;
    } in
    guarded (c == 68) (ltb 0 e.cursor_pos) _
      (if c == 67 && ltb e.cursor_pos e.line_pos then to_right else idle) _ _
      (λ k p. let (n, q) = pred_of e.cursor_pos p in left-Shows e n v q)
      (λ k p. stuck_left e _ v (ground (arith, p)) (
        ap (λ a. a.editor)
          (if_false to_right idle {b = c == 67 && ltb e.cursor_pos e.line_pos}
            (ground (arith, k)))))
      (λ k.
        guarded (c == 67) (ltb e.cursor_pos e.line_pos) to_right idle _ _
          (λ k' p.
            let (n, q) = pred_of (e.line_pos - e.cursor_pos) (ground (arith, p)) in
            right-Shows e n v q)
          (λ k' p. stuck_right e idle v (ground (arith, p)) refl)
          (λ k'. kept-Shows e idle 0 v refl))

plain_key-Shows :
    (e : Editor) (c : ℕ) → IsEditor e → Shows (plain_key e c) (plain_meaning (line_of e) c)
unfolding plain_key
plain_key-Shows e c v =
    choice-Shows (c == 13 || c == 10) _ _ _ _ (λ k. enter v)
      (λ k.
        choice-Shows (c == 8 || c == 127) _ _ _ _ (λ p. backspace-Shows e v)
          (λ p.
            choice-Shows (leb 32 c && leb c 126) _ _ _ _ (λ q. printable-Shows e c v)
              (λ q. record { line = refl; valid = v })))
  where
    enter :
        IsEditor e
        → Shows
            (record {
              editor = record e { line_buffer = update e.line_buffer e.line_pos 0 };
              output = (13 ∷ 10 ∷ []) ∷ [];
              runs = true;
            })
            (line_of e)
    enter (low, high) = record {
      line =
          line-eq _ _ _ _
            (chars_before-agree e.cursor_pos _ e.line_buffer
              (λ j p. update-other e.line_buffer e.line_pos j 0 (λ r. omega arith)))
            (chars-agree (e.line_pos - e.cursor_pos) _ e.line_buffer e.cursor_pos e.cursor_pos
              (λ j p.
                update-other e.line_buffer e.line_pos (e.cursor_pos + j) 0 (λ r. omega arith)))
            refl;
      valid = (low, high);
    }

-- With the cursor in the line and the line in its buffer, each key does to the buffer and the
-- positions of `cli_task_entry` what it means for a line with a cursor: an arrow behind its escape
-- sequence moves it by a character, a printable character is put before it if there is room, and
-- Backspace takes out the one before it; and the cursor stays in the line, and the line in its
-- buffer.
pub key_step-Shows :
    (e : Editor) (c : ℕ) → IsEditor e → Shows (key_step e c) (meaning (line_of e) c)
unfolding key_step
key_step-Shows e c v =
    choice-Shows (e.esc_state == 1) _ _ _ _ (λ k. kept-Shows e _ _ v refl)
      (λ k.
        choice-Shows (e.esc_state == 2) _ _ _ _ (λ p. arrow-Shows e c v)
          (λ p.
            choice-Shows (c == 27) _ _ _ _ (λ q. kept-Shows e _ 1 v refl)
              (λ q. plain_key-Shows e c v)))
