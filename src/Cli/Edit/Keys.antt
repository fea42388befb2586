-- ===== src/Cli/Edit/Keys.antt =====
-- kernel/src/cli.c: the line editor does to its array what each key means for a line with a cursor.
use so_rtos.Base.{
  ℕ, zero, suc, ◌≡◌, ◌≤◌, ◌<◌, refl, arith, Bool, true, false, ◌&&◌, ◌||◌, ◌==◌, ltb, leb, List, [],
  ◌∷◌, ap, sym, ◌∙◌, subst, Bool-cases, inl, inr, ◌+◌, ◌-◌, if◌then◌else◌, update, if_true,
  if_false,
}
use so_rtos.Chain.{length}
use so_rtos.Cli.Edit.{
  Editor, Answer, shift_left, shift_right, backspace, insert_char, append_char, printable,
}
use so_rtos.Cli.Edit.Shift.{
  shift_left-at, shift_right-inside, shift_right-outside, update-here, update-other, chars,
  chars_before, chars-agree, chars_before-agree, length-chars, length-chars_before,
}

-- A line with a cursor: the characters before it, the nearest first, and those behind it.
pub record Line : Type 0 where
  pub before : List ℕ
  pub after : List ℕ
  pub escape : ℕ

abbrev pub line_of : Editor → Line
line_of e = record {
  before = chars_before e.line_buffer e.cursor_pos;
  after = chars (e.line_pos - e.cursor_pos) e.line_buffer e.cursor_pos;
  escape = e.esc_state;
}

abbrev pub IsEditor : Editor → Type 0
IsEditor e = (e.cursor_pos ≤ e.line_pos) × (e.line_pos ≤ 127)

-- What the keys mean.
abbrev without_first : List ℕ → List ℕ
without_first [] = []
without_first (c ∷ s) = s

abbrev pub go_left : List ℕ → List ℕ → Line
go_left [] a = record { before = []; after = a; escape = 0 }
go_left (c ∷ b) a = record { before = b; after = c ∷ a; escape = 0 }

abbrev pub go_right : List ℕ → List ℕ → Line
go_right b [] = record { before = b; after = []; escape = 0 }
go_right b (c ∷ a) = record { before = c ∷ b; after = a; escape = 0 }

abbrev pub erase_before : Line → Line
erase_before l = record l { before = without_first l.before }

abbrev pub type_char : Line → ℕ → Line
type_char l c =
    if ltb (length l.before + length l.after) 127 then record l { before = c ∷ l.before } else l

abbrev pub move : Line → ℕ → Line
move l c =
    if c == 68
    then go_left l.before l.after
    else if c == 67
    then go_right l.before l.after
    else record l { escape = 0 }

abbrev pub plain_meaning : Line → ℕ → Line
plain_meaning l c =
    if c == 13 || c == 10
    then l
    else if c == 8 || c == 127
    then erase_before l
    else if leb 32 c && leb c 126
    then type_char l c
    else l

abbrev pub meaning : Line → ℕ → Line
meaning l c =
    if l.escape == 1
    then record l { escape = if c == 91 then 2 else 0 }
    else if l.escape == 2
    then move l c
    else if c == 27
    then record l { escape = 1 }
    else plain_meaning l c

-- The answer's editor holds the line.
pub record Shows (a : Answer) (l : Line) : Type 0 where
  pub line : line_of a.editor ≡ l
  pub valid : IsEditor a.editor

pub choice-Shows :
    (b : Bool) (x y : Answer) (l m : Line)
    → (b ≡ true → Shows x l)
    → (b ≡ false → Shows y m)
    → Shows (if b then x else y) (if b then l else m)
choice-Shows true x y l m p q = p refl
choice-Shows false x y l m p q = q refl

pub line-eq :
    (e : Editor) (b a : List ℕ) (x : ℕ)
    → chars_before e.line_buffer e.cursor_pos ≡ b
    → chars (e.line_pos - e.cursor_pos) e.line_buffer e.cursor_pos ≡ a
    → e.esc_state ≡ x
    → line_of e ≡ record { before = b; after = a; escape = x }
line-eq e b a x p q r = rw (p, q, r) refl

-- The characters behind the cursor, at a new place in a new buffer.
after-moved :
    (f g : ℕ → ℕ) (m n i k : ℕ)
    → m ≡ n
    → ((j : ℕ) → j < n → f (i + j) ≡ g (k + j))
    → chars m f i ≡ chars n g k
after-moved f g m n i k e h = ap (λ z. chars z f i) e ∙ chars-agree n f g i k h

pub backspace-Shows : (e : Editor) → IsEditor e → Shows (backspace e) (erase_before (line_of e))
unfolding backspace
backspace-Shows e (low, high) = by_cursor e.cursor_pos refl
  where
    by_cursor : (n : ℕ) → e.cursor_pos ≡ n → Shows (backspace e) (erase_before (line_of e))
    by_cursor zero q =
        subst (λ a. Shows a (erase_before (line_of e)))
          (sym (if_false _ _ {b = ltb 0 e.cursor_pos} (ground arith)))
          (record {
            line =
                line-eq e _ _ _
                  (ap (chars_before e.line_buffer) q
                    ∙ ap (λ n. without_first (chars_before e.line_buffer n)) (sym q))
                  refl refl;
            valid = (low, high);
          })
    by_cursor (suc k) q =
        let f = shift_left (e.line_pos - e.cursor_pos) e.line_buffer e.cursor_pos in
        let g = update f (e.line_pos - 1) 0 in
        let kept : (j : ℕ) → j < k → g j ≡ e.line_buffer j = λ j p.
          ground (arith, shift_left-at (e.line_pos - e.cursor_pos) e.line_buffer e.cursor_pos j) in
        let moved : (j : ℕ)
            → j < e.line_pos - e.cursor_pos
            → g (e.cursor_pos - 1 + j) ≡ e.line_buffer (e.cursor_pos + j) =
          λ j p.
            update-other f (e.line_pos - 1) (e.cursor_pos - 1 + j) 0 (λ r. omega arith)
            ∙ (shift_left-at (e.line_pos - e.cursor_pos) e.line_buffer e.cursor_pos
                  (e.cursor_pos - 1 + j) (omega arith)
                ∙ (if_true _ _
                      {b = leb (e.cursor_pos - 1) (e.cursor_pos - 1 + j)
                        && ltb (e.cursor_pos - 1 + j)
                            (e.cursor_pos - 1 + (e.line_pos - e.cursor_pos))}
                      (ground arith)
                    ∙ ap e.line_buffer (omega arith))) in
        subst (λ a. Shows a (erase_before (line_of e)))
          (sym (if_true _ _ {b = ltb 0 e.cursor_pos} (ground arith)))
          (record {
            line =
                line-eq _ _ _ _
                  (ap (chars_before g) (omega arith)
                    ∙ (chars_before-agree k g e.line_buffer kept
                        ∙ ap (λ n. without_first (chars_before e.line_buffer n)) (sym q)))
                  (after-moved g e.line_buffer _ (e.line_pos - e.cursor_pos) _ e.cursor_pos
                    (omega arith) moved)
                  refl;
            valid = (omega arith, omega arith);
          })

-- Room for one more character, as the line says it.
room-eq :
    (e : Editor)
    → e.cursor_pos ≤ e.line_pos
    → ltb (length (line_of e).before + length (line_of e).after) 127 ≡ ltb e.line_pos 127
room-eq e low =
    ap (λ n. ltb n 127)
      (omega (
        arith,
        length-chars_before e.line_buffer e.cursor_pos,
        length-chars (e.line_pos - e.cursor_pos) e.line_buffer e.cursor_pos,
      ))

insert_char-Shows :
    (e : Editor) (c : ℕ)
    → e.cursor_pos < e.line_pos
    → e.line_pos < 127
    → Shows (insert_char e c) (record (line_of e) { before = c ∷ (line_of e).before })
unfolding insert_char
insert_char-Shows e c inside room =
    let count = e.line_pos - e.cursor_pos in
    let f = shift_right count e.line_buffer e.line_pos in
    let h = update f e.cursor_pos c in
    let g = update h (e.line_pos + 1) 0 in
    let kept : (j : ℕ) → j < e.cursor_pos → g j ≡ e.line_buffer j = λ j p.
      update-other h (e.line_pos + 1) j 0 (λ r. omega arith)
      ∙ (update-other f e.cursor_pos j c (λ r. omega arith)
          ∙ shift_right-outside count e.line_buffer e.line_pos e.cursor_pos j (omega arith)
              (inl (omega arith))) in
    let moved : (j : ℕ) → j < count → g (e.cursor_pos + 1 + j) ≡ e.line_buffer (e.cursor_pos + j) =
      λ j p.
        update-other h (e.line_pos + 1) (e.cursor_pos + 1 + j) 0 (λ r. omega arith)
        ∙ (update-other f e.cursor_pos (e.cursor_pos + 1 + j) c (λ r. omega arith)
            ∙ (shift_right-inside count e.line_buffer e.line_pos e.cursor_pos (e.cursor_pos + 1 + j)
                  (omega arith) (omega arith) (omega arith)
                ∙ ap e.line_buffer (omega arith))) in
    let here : g e.cursor_pos ≡ c =
      update-other h (e.line_pos + 1) e.cursor_pos 0 (λ r. omega arith)
      ∙ update-here f e.cursor_pos e.cursor_pos c refl in
    let next : e.cursor_pos + 1 ≡ suc e.cursor_pos = omega arith in
    record {
      line =
          line-eq _ _ _ _
            (ap (chars_before g) next
              ∙ (ap (λ x. x ∷ chars_before g e.cursor_pos) here
                  ∙ ap (◌∷◌ c) (chars_before-agree e.cursor_pos g e.line_buffer kept)))
            (after-moved g e.line_buffer _ count _ e.cursor_pos (omega arith) moved) refl;
      valid = (omega arith, omega arith);
    }

append_char-Shows :
    (e : Editor) (c : ℕ)
    → e.cursor_pos ≡ e.line_pos
    → e.line_pos < 127
    → Shows (append_char e c) (record (line_of e) { before = c ∷ (line_of e).before })
unfolding append_char
append_char-Shows e c end room =
    let g = update e.line_buffer e.line_pos c in
    let kept : (j : ℕ) → j < e.cursor_pos → g j ≡ e.line_buffer j =
      λ j p. update-other e.line_buffer e.line_pos j c (λ r. omega arith) in
    let next : e.cursor_pos + 1 ≡ suc e.cursor_pos = omega arith in
    let here : g e.cursor_pos ≡ c = update-here e.line_buffer e.line_pos e.cursor_pos c end in
    record {
      line =
          line-eq _ _ _ _
            (ap (chars_before g) next
              ∙ (ap (λ x. x ∷ chars_before g e.cursor_pos) here
                  ∙ ap (◌∷◌ c) (chars_before-agree e.cursor_pos g e.line_buffer kept)))
            (after-moved g e.line_buffer _ (e.line_pos - e.cursor_pos) _ e.cursor_pos (omega arith)
              (λ j p. absurd (omega arith)))
            refl;
      valid = (omega arith, omega arith);
    }

pub printable-Shows :
    (e : Editor) (c : ℕ) → IsEditor e → Shows (printable e c) (type_char (line_of e) c)
unfolding printable
printable-Shows e c (low, high) = rw (room-eq e low) (
    choice-Shows (ltb e.line_pos 127) _ _ _ _
      (λ room. elim (Bool-cases (ltb e.cursor_pos e.line_pos)) [
        | inl p ↦
            subst (λ a. Shows a (record (line_of e) { before = c ∷ (line_of e).before }))
              (sym (if_true _ _ p)) (insert_char-Shows e c (ground arith) (ground arith))
        | inr p ↦
            subst (λ a. Shows a (record (line_of e) { before = c ∷ (line_of e).before }))
              (sym (if_false _ _ p)) (append_char-Shows e c (ground arith) (ground arith))
      ])
      (λ full. record { line = refl; valid = (low, high) }))

pub left-Shows :
    (e : Editor) (n : ℕ)
    → IsEditor e
    → e.cursor_pos ≡ suc n
    → Shows
        (record {
          editor = record e { esc_state = 0; cursor_pos = e.cursor_pos - 1 };
          output = (27 ∷ 91 ∷ 68 ∷ []) ∷ [];
          runs = false;
        })
        (go_left (line_of e).before (line_of e).after)
left-Shows e n (low, high) q =
    let back : e.cursor_pos - 1 ≡ n = omega arith in
    let wide : e.line_pos - (e.cursor_pos - 1) ≡ suc (e.line_pos - e.cursor_pos) = omega arith in
    let same : e.cursor_pos - 1 + 1 ≡ e.cursor_pos = omega arith in
    record {
      line =
          line-eq _ _ _ _ (ap (chars_before e.line_buffer) back)
            (ap (λ m. chars m e.line_buffer (e.cursor_pos - 1)) wide
              ∙ (ap
                    (λ i.
                      e.line_buffer (e.cursor_pos - 1)
                      ∷ chars (e.line_pos - e.cursor_pos) e.line_buffer i)
                    same
                  ∙ ap
                      (λ i.
                        e.line_buffer i
                        ∷ chars (e.line_pos - e.cursor_pos) e.line_buffer e.cursor_pos)
                      back))
            refl
          ∙ sym (ap (λ m. go_left (chars_before e.line_buffer m) (line_of e).after) q);
      valid = (omega arith, high);
    }

pub right-Shows :
    (e : Editor) (n : ℕ)
    → IsEditor e
    → e.line_pos - e.cursor_pos ≡ suc n
    → Shows
        (record {
          editor = record e { esc_state = 0; cursor_pos = e.cursor_pos + 1 };
          output = (27 ∷ 91 ∷ 67 ∷ []) ∷ [];
          runs = false;
        })
        (go_right (line_of e).before (line_of e).after)
right-Shows e n (low, high) q =
    let next : e.cursor_pos + 1 ≡ suc e.cursor_pos = omega arith in
    let left : e.line_pos - (e.cursor_pos + 1) ≡ n = omega arith in
    record {
      line =
          line-eq _ _ _ _ (ap (chars_before e.line_buffer) next)
            (ap (λ m. chars m e.line_buffer (e.cursor_pos + 1)) left) refl
          ∙ sym (ap (λ m. go_right (line_of e).before (chars m e.line_buffer e.cursor_pos)) q);
      valid = (omega arith, high);
    }
