-- ===== src/Cli/Commands/Table.antt =====
-- kernel/src/cli.c: what registering and unregistering do to the names that the shell finds.
use so_rtos.Base.{
  Bool, subst, ℕ, zero, suc, ◌≡◌, ◌≢◌, ◌≤◌, ◌<◌, refl, arith, none, some, true, false, ◌==◌, leb,
  List, ap, sym, ◌∙◌, Bool-cases, inl, inr, ◌+◌, ◌-◌, update, if_true, if_false,
}
use so_rtos.Text.{same_text}
use so_rtos.Text.Compare.{same_text_refl}
use so_rtos.Cli.{cli_max_cmds}
use so_rtos.Cli.Commands.{
  Command, Commands, drop_command, find_command, lookup, cli_register_command,
  cli_unregister_command,
}

-- The first of the commands from `i` with the name.
pub record IsFirst (t : Commands) (name : List ℕ) (i n : ℕ) : Type 0 where
  pub low : i ≤ n
  pub named : same_text name (t.commands n).name ≡ true
  pub others : (j : ℕ) → i ≤ j → j < n → same_text name (t.commands j).name ≡ false

pub find_command-IsFirst :
    (rounds : ℕ) (t : Commands) (i : ℕ) (name : List ℕ) (n : ℕ)
    → IsFirst t name i n
    → n < i + rounds
    → find_command rounds t i name ≡ some n
unfolding find_command
find_command-IsFirst zero t i name n v p = absurd (omega (arith, v.low))
find_command-IsFirst (suc rounds) t i name n v p = elim (Bool-cases (i == n)) [
  | inl e ↦
      let at : i ≡ n = ground arith in
      if_true _ _ (ap (λ k. same_text name (t.commands k).name) at ∙ v.named) ∙ ap some at
  | inr e ↦
      let less : i < n = ground (arith, v.low) in
      if_false _ _ (v.others i (omega arith) less)
      ∙ find_command-IsFirst rounds t (i + 1) name n
          (record {
            low = omega arith;
            named = v.named;
            others = λ j q r. v.others j (omega arith) r;
          })
          (omega arith)
]

pub find_command-none :
    (rounds : ℕ) (t : Commands) (i : ℕ) (name : List ℕ)
    → ((j : ℕ) → i ≤ j → j < i + rounds → same_text name (t.commands j).name ≡ false)
    → find_command rounds t i name ≡ none
unfolding find_command
find_command-none zero t i name h = refl
find_command-none (suc rounds) t i name h =
    if_false _ _ (h i (omega arith) (omega arith))
    ∙ find_command-none rounds t (i + 1) name (λ j p q. h j (omega arith) (omega arith))

-- With room in the table and a name that is not in it, `cli_register_command` succeeds; the shell
-- then finds the new command by its name, and every other command where it was.
pub cli_register_command-found :
    (t : Commands) (name help : List ℕ) (handler : ℕ)
    → t.cmd_count < cli_max_cmds
    → ((j : ℕ) → j < t.cmd_count → same_text name (t.commands j).name ≡ false)
    → let (ok, t') =
        cli_register_command t
          (some (record { name = some name; help = help; handler = some handler })) in
      (ok ≡ true)
      × (lookup t' name ≡ some t.cmd_count)
      × ((t'.commands t.cmd_count).handler ≡ handler)
      × ((other : List ℕ) (n : ℕ)
          → IsFirst t other 0 n
          → n < t.cmd_count
          → (lookup t' other ≡ some n) × (t'.commands n ≡ t.commands n))
unfolding cli_register_command lookup
cli_register_command-found t name help handler room fresh =
    let entry : Command = record { name = name; help = help; handler = handler } in
    let t' : Commands = record {
      commands = update t.commands t.cmd_count entry;
      cmd_count = t.cmd_count + 1;
    } in
    let old : (j : ℕ) → j < t.cmd_count → t'.commands j ≡ t.commands j =
      λ j p. if_false entry (t.commands j) (ground arith) in
    let here : t'.commands t.cmd_count ≡ entry =
      if_true entry (t.commands t.cmd_count) (ground arith) in
    subst
      (λ (r : Bool × Commands).
        (r.0 ≡ true)
        × (lookup r.1 name ≡ some t.cmd_count)
        × ((r.1.commands t.cmd_count).handler ≡ handler)
        × ((other : List ℕ) (n : ℕ)
            → IsFirst t other 0 n
            → n < t.cmd_count
            → (lookup r.1 other ≡ some n) × (r.1.commands n ≡ t.commands n)))
      (sym (if_false _ (true, t') {b = leb cli_max_cmds t.cmd_count} (ground arith)))
      (
        refl,
        find_command-IsFirst (t.cmd_count + 1) t' 0 name t.cmd_count
            (record {
              low = omega arith;
              named = ap (λ c. same_text name c.name) here ∙ same_text_refl name;
              others = λ j p q. ap (λ c. same_text name c.name) (old j q) ∙ fresh j q;
            })
            (omega arith),
        ap (λ c. c.handler) here,
        λ other n v p. (
          find_command-IsFirst (t.cmd_count + 1) t' 0 other n
              (record {
                low = v.low;
                named = ap (λ c. same_text other c.name) (old n p) ∙ v.named;
                others = λ j q r.
                    ap (λ c. same_text other c.name) (old j (omega arith)) ∙ v.others j q r;
              })
              (omega arith),
          old n p,
        ),
      )

-- When exactly one command has the name, `cli_unregister_command` succeeds, the shell no longer finds
-- the name, and the table is one shorter.
pub cli_unregister_command-gone :
    (t : Commands) (name : List ℕ) (n : ℕ)
    → IsFirst t name 0 n
    → n < t.cmd_count
    → ((j : ℕ) → j < t.cmd_count → j ≢ n → same_text name (t.commands j).name ≡ false)
    → let (ok, t') = cli_unregister_command t name in
      (ok ≡ true) × (lookup t' name ≡ none) × (t'.cmd_count + 1 ≡ t.cmd_count)
unfolding cli_unregister_command lookup drop_command
cli_unregister_command-gone t name n v inside others =
    let last = t.commands (t.cmd_count - 1) in
    let t' : Commands = record {
      commands = update t.commands n last;
      cmd_count = t.cmd_count - 1;
    } in
    rw (find_command-IsFirst t.cmd_count t 0 name n v (omega arith)) (
      refl,
      find_command-none (t.cmd_count - 1) t' 0 name (λ j p q. elim (Bool-cases (j == n)) [
        | inl e ↦
            ap (λ c. same_text name c.name) (if_true last (t.commands j) e)
            ∙ others (t.cmd_count - 1) (omega arith) (λ r. ground arith)
        | inr e ↦
            ap (λ c. same_text name c.name) (if_false last (t.commands j) e)
            ∙ others j (omega arith) (λ r. ground arith)
      ]),
      omega arith,
    )
