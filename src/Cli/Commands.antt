-- ===== src/Cli/Commands.antt =====
-- kernel/src/cli.c: the table of commands, and the words of a line. The handlers are numbers.
pub mod Table
use so_rtos.Base.{
  ℕ, zero, suc, Option, none, some, Bool, true, false, not, ◌&&◌, ◌||◌, ◌==◌, ltb, leb, is_null,
  ◌+◌, ◌-◌, List, [], ◌∷◌, ◌++◌, if◌then◌else◌, update,
}
use so_rtos.Text.{same_text}
use so_rtos.Cli.{cli_max_cmds, cli_max_args}

-- `cli_command_t`.
pub record Command : Type 0 where
  pub name : List ℕ
  pub help : List ℕ
  pub handler : ℕ

-- `commands` and `cmd_count` of `cli_ctx`.
pub record Commands : Type 0 where
  pub commands : ℕ → Command
  pub cmd_count : ℕ

-- The loop of `cli_process_cmd` and of `cli_unregister_command`: the index of the first command with
-- the name.
unfoldable pub find_command : ℕ → Commands → ℕ → List ℕ → Option ℕ
find_command zero t i name = none
find_command (suc rounds) t i name =
    let rest = find_command rounds t (i + 1) name in
    if same_text name (t.commands i).name then some i else rest

unfoldable pub lookup : Commands → List ℕ → Option ℕ
lookup t name = find_command t.cmd_count t 0 name

-- What `cli_register_command` is given: a pointer that may be NULL, to a name and a handler that may.
pub record Entry : Type 0 where
  pub name : Option (List ℕ)
  pub help : List ℕ
  pub handler : Option ℕ

unfoldable pub add_command : Commands → Option (List ℕ) → List ℕ → Option ℕ → Bool × Commands
add_command t none help handler = (false, t)
add_command t (some name) help none = (false, t)
add_command t (some name) help (some handler) = (
  true,
  record {
    commands =
        update t.commands t.cmd_count (record { name = name; help = help; handler = handler });
    cmd_count = t.cmd_count + 1;
  },
)

-- `cli_register_command`: `true` for CLI_OK and `false` for CLI_ERR.
unfoldable pub register_entry : Commands → Option Entry → Bool × Commands
unfolding add_command
register_entry t none = (false, t)
register_entry t (some e) = add_command t e.name e.help e.handler

unfoldable pub cli_register_command : Commands → Option Entry → Bool × Commands
unfolding register_entry
cli_register_command t cmd =
    if leb cli_max_cmds t.cmd_count then (false, t) else register_entry t cmd

-- `cli_unregister_command`: `true` for CLI_OK and `false` for CLI_ERR_NOCMD.
unfoldable pub drop_command : Commands → Option ℕ → Bool × Commands
drop_command t none = (false, t)
drop_command t (some i) = (
  true,
  record {
    commands = update t.commands i (t.commands (t.cmd_count - 1));
    cmd_count = t.cmd_count - 1;
  },
)

unfoldable pub cli_unregister_command : Commands → List ℕ → Bool × Commands
unfolding drop_command
cli_unregister_command t name = drop_command t (lookup t name)

-- `cli_tokenize` on a line in memory: the spaces and tabs become NULs, and the result is the places
-- of the words. A round of the outer loop reads a character, and one of the inner a space, so that as
-- many rounds as the line is long are enough.
unfoldable pub skip_spaces : ℕ → (ℕ → ℕ) → ℕ → Bool → (ℕ → ℕ) × (ℕ × Bool)
skip_spaces zero line at is_token = (line, (at, is_token))
skip_spaces (suc fuel) line at is_token =
    let rest = skip_spaces fuel (update line at 0) (at + 1) false in
    if line at == 32 || line at == 9 then rest else (line, (at, is_token))

unfoldable pub tokenize_loop : ℕ → ℕ → (ℕ → ℕ) → ℕ → ℕ → Bool → List ℕ × (ℕ → ℕ)
unfolding skip_spaces
tokenize_loop room zero line at argc is_token = ([], line)
tokenize_loop room (suc fuel) line at argc is_token =
    let (line', (at', inside)) = skip_spaces room line at is_token in
    let argc' = if inside then argc else argc + 1 in
    let (argv, end) = tokenize_loop room fuel line' (at' + 1) argc' true in
    if line at == 0 || leb cli_max_args argc
    then ([], line)
    else if line' at' == 0
    then ([], line')
    else (if inside then argv else at' ∷ argv, end)

unfoldable pub cli_tokenize : ℕ → (ℕ → ℕ) → List ℕ × (ℕ → ℕ)
unfolding tokenize_loop
cli_tokenize room line = tokenize_loop room (suc room) line 0 0 false
