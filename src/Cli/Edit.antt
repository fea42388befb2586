-- ===== src/Cli/Edit.antt =====
-- kernel/src/cli.c: the line editor of `cli_task_entry`. What is written to the terminal is the list
-- of the texts given to `cli_puts`.
pub mod Shift
pub mod Keys
pub mod Step
use so_rtos.Base.{
  ℕ, zero, suc, Bool, true, false, ◌&&◌, ◌||◌, ◌==◌, ltb, leb, ◌+◌, ◌-◌, List, [], ◌∷◌, ◌++◌,
  if◌then◌else◌, update,
}
use so_rtos.Cli.{cli_max_line_len}

-- The fields of `cli_ctx` that the editor keeps. `esc_state` is 0, 1 behind ESC and 2 behind `[`.
pub record Editor : Type 0 where
  pub line_buffer : ℕ → ℕ
  pub line_pos : ℕ
  pub cursor_pos : ℕ
  pub esc_state : ℕ

-- The shell's answer to a key: the new state, what is written, and whether `cli_process_cmd` runs on
-- the line.
pub record Answer : Type 0 where
  pub editor : Editor
  pub output : List (List ℕ)
  pub runs : Bool

-- `line_buffer[i-1] = line_buffer[i]` for `count` indices from `i`.
unfoldable pub shift_left : ℕ → (ℕ → ℕ) → ℕ → ℕ → ℕ
shift_left zero buffer i = buffer
shift_left (suc count) buffer i = shift_left count (update buffer (i - 1) (buffer i)) (i + 1)

-- `line_buffer[i] = line_buffer[i-1]` for `count` indices from `i` downwards.
unfoldable pub shift_right : ℕ → (ℕ → ℕ) → ℕ → ℕ → ℕ
shift_right zero buffer i = buffer
shift_right (suc count) buffer i = shift_right count (update buffer i (buffer (i - 1))) (i - 1)

-- The C string in the buffer: up to the NUL, of which there is one within `room` characters.
unfoldable pub string_at : ℕ → (ℕ → ℕ) → ℕ → List ℕ
string_at zero buffer i = []
string_at (suc room) buffer i =
    let rest = string_at room buffer (i + 1) in if buffer i == 0 then [] else buffer i ∷ rest

-- `ESC [ D` and `ESC [ C`.
abbrev pub cursor_left : List ℕ
cursor_left = 27 ∷ 91 ∷ 68 ∷ []

abbrev pub cursor_right : List ℕ
cursor_right = 27 ∷ 91 ∷ 67 ∷ []

unfoldable pub times : ℕ → List ℕ → List (List ℕ)
times zero s = []
times (suc n) s = s ∷ times n s

-- Backspace and DEL.
unfoldable pub backspace : Editor → Answer
unfolding shift_left times string_at
backspace e =
    let buffer =
      update (shift_left (e.line_pos - e.cursor_pos) e.line_buffer e.cursor_pos) (e.line_pos - 1)
        0 in
    let e' = record e {
      line_buffer = buffer;
      line_pos = e.line_pos - 1;
      cursor_pos = e.cursor_pos - 1;
    } in
    if ltb 0 e.cursor_pos
    then record {
      editor = e';
      output =
          (8 ∷ [])
          ∷ string_at cli_max_line_len buffer e'.cursor_pos
          ∷ (32 ∷ [])
          ∷ times (e'.line_pos - e'.cursor_pos + 1) cursor_left;
      runs = false;
    }
    else record { editor = e; output = []; runs = false }

-- A printable character in the middle of the line, and at its end.
unfoldable pub insert_char : Editor → ℕ → Answer
unfolding shift_right times string_at
insert_char e c =
    let buffer =
      update
        (update (shift_right (e.line_pos - e.cursor_pos) e.line_buffer e.line_pos) e.cursor_pos c)
        (e.line_pos + 1) 0 in
    let e' = record e {
      line_buffer = buffer;
      line_pos = e.line_pos + 1;
      cursor_pos = e.cursor_pos + 1;
    } in
    record {
      editor = e';
      output =
          string_at cli_max_line_len buffer e.cursor_pos
          ∷ times (e'.line_pos - e'.cursor_pos) cursor_left;
      runs = false;
    }

unfoldable pub append_char : Editor → ℕ → Answer
append_char e c = record {
  editor = record e {
    line_buffer = update e.line_buffer e.line_pos c;
    line_pos = e.line_pos + 1;
    cursor_pos = e.cursor_pos + 1;
  };
  output = (c ∷ []) ∷ [];
  runs = false;
}

-- `"ERROR: BUFFER FULL\r\n"`.
abbrev pub buffer_full : List ℕ
buffer_full =
    69 ∷ 82 ∷ 82 ∷ 79 ∷ 82 ∷ 58 ∷ 32 ∷ 66 ∷ 85 ∷ 70 ∷ 70 ∷ 69 ∷ 82 ∷ 32 ∷ 70 ∷ 85 ∷ 76 ∷ 76 ∷ 13
    ∷ 10 ∷ []

unfoldable pub printable : Editor → ℕ → Answer
unfolding insert_char append_char
printable e c =
    if ltb e.line_pos (cli_max_line_len - 1)
    then if ltb e.cursor_pos e.line_pos then insert_char e c else append_char e c
    else record { editor = e; output = buffer_full ∷ []; runs = false }

-- The arrow keys.
unfoldable pub arrow : Editor → ℕ → Answer
arrow e c =
    let e' = record e { esc_state = 0 } in
    if c == 68 && ltb 0 e.cursor_pos
    then record {
      editor = record e' { cursor_pos = e.cursor_pos - 1 };
      output = cursor_left ∷ [];
      runs = false;
    }
    else if c == 67 && ltb e.cursor_pos e.line_pos
    then record {
      editor = record e' { cursor_pos = e.cursor_pos + 1 };
      output = cursor_right ∷ [];
      runs = false;
    }
    else record { editor = e'; output = []; runs = false }

-- A key outside an escape sequence. At the end of a line the positions go back to 0 once the command
-- has run.
unfoldable pub plain_key : Editor → ℕ → Answer
unfolding backspace printable
plain_key e c =
    if c == 13 || c == 10
    then record {
      editor = record e { line_buffer = update e.line_buffer e.line_pos 0 };
      output = (13 ∷ 10 ∷ []) ∷ [];
      runs = true;
    }
    else if c == 8 || c == 127
    then backspace e
    else if leb 32 c && leb c 126
    then printable e c
    else record { editor = e; output = []; runs = false }

-- The body of the loop of `cli_task_entry`, with the character that it got.
unfoldable pub key_step : Editor → ℕ → Answer
unfolding arrow plain_key
key_step e c =
    if e.esc_state == 1
    then record {
      editor = record e { esc_state = if c == 91 then 2 else 0 };
      output = [];
      runs = false;
    }
    else if e.esc_state == 2
    then arrow e c
    else if c == 27
    then record { editor = record e { esc_state = 1 }; output = []; runs = false }
    else plain_key e c

-- The state behind the command.
abbrev pub next_line : Editor → Editor
next_line e = record e { line_pos = 0; cursor_pos = 0 }
