-- ===== src/Tests/Shell.antt =====
-- The shell on concrete keys, numbers and commands.
use so_rtos.Base.{ℕ, ◌≡◌, refl, arith, true, List, [], ◌∷◌, some, ◌<◌, ◌+◌}
use so_rtos.Text.{utils_atoi, utils_strcmp}
use so_rtos.Cli.{Arg, Printed, cli_printf}
use so_rtos.Cli.Numbers.{utils_atoi-cli_printf}
use so_rtos.Cli.Printf.{FitsBuffer, cli_printf-FitsBuffer}
use so_rtos.Cli.Edit.{Editor, key_step}
use so_rtos.Cli.Edit.Keys.{Shows, meaning, line_of}
use so_rtos.Cli.Edit.Step.{key_step-Shows}
use so_rtos.Cli.Commands.{Commands, cli_register_command, lookup}
use so_rtos.Cli.Commands.Table.{IsFirst, cli_register_command-found}

abbrev hi : List ℕ
hi = 104 ∷ 105 ∷ []

abbrev h_only : List ℕ
h_only = 104 ∷ []

utils_atoi-cli_printf_example :
    ((s : List ℕ) × (cli_printf (37 ∷ 117 ∷ []) [] (Arg.word 1207 ∷ []) ≡ Printed.complete s)
      × (utils_atoi s ≡ 1207))
    × ((s : List ℕ) × (cli_printf (37 ∷ 100 ∷ []) [] (Arg.word 1207 ∷ []) ≡ Printed.complete s)
        × (utils_atoi s ≡ 1207))
utils_atoi-cli_printf_example = utils_atoi-cli_printf 1207 [] (omega arith)

-- `"%5d!%"`, whose last directive has no letter, and the text `"on"` behind its NUL.
abbrev format : List ℕ
format = 37 ∷ 53 ∷ 100 ∷ 33 ∷ 37 ∷ []

abbrev behind_format : List (List ℕ)
behind_format = (111 ∷ 110 ∷ []) ∷ []

cli_printf-FitsBuffer_example : FitsBuffer (cli_printf format behind_format (Arg.word 7 ∷ []))
cli_printf-FitsBuffer_example = cli_printf-FitsBuffer format behind_format (Arg.word 7 ∷ [])

-- The line `ab` with the cursor behind the `a`.
abbrev editor : Editor
editor = record { line_buffer = λ i. 97 + i; line_pos = 2; cursor_pos = 1; esc_state = 0 }

key_step-Shows_example : Shows (key_step editor 8) (meaning (line_of editor) 8)
key_step-Shows_example = key_step-Shows editor 8 (omega arith, omega arith)

abbrev help_only : Commands
help_only = record {
  commands = λ i. record { name = 104 ∷ 101 ∷ []; help = []; handler = 1 };
  cmd_count = 1;
}

cli_register_command-found_example :
    let (ok, t) =
      cli_register_command help_only
        (some (record { name = some (112 ∷ 115 ∷ []); help = []; handler = some 2 })) in
    (ok ≡ true)
    × (lookup t (112 ∷ 115 ∷ []) ≡ some 1)
    × ((t.commands 1).handler ≡ 2)
    × ((other : List ℕ) (n : ℕ)
        → IsFirst help_only other 0 n
        → n < 1
        → (lookup t other ≡ some n) × (t.commands n ≡ help_only.commands n))
unfolding utils_strcmp
cli_register_command-found_example =
    cli_register_command-found help_only (112 ∷ 115 ∷ []) [] 2 (omega arith) (λ j p. refl)
