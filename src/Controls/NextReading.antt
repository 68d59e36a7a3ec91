-- ===== src/Controls/NextReading.antt =====
-- A command's change is what the next reading of the control file gives, and what it may change.
use ai_trader.Base.{some, List, [], ◌∷◌, Float, ◌≡◌, ap, ◌∙◌}
use ai_trader.Controls.Commands.{Command, change, Disk, stored, run_command, run_commands}
use ai_trader.Controls.Defaults.{Setting}
use ai_trader.Controls.Outcome.{Outside, Change, raises, refused, changed}
use ai_trader.Controls.Preserved.{change-IsValid}
use ai_trader.Controls.PreservedBlocks.{Written}
use ai_trader.Controls.Read.{read_controls}
use ai_trader.Controls.RoundTrip.{merged-written}
use ai_trader.Controls.State.{State}
use ai_trader.Controls.Valid.{Shipped, read_controls-IsValid}
use ai_trader.Controls.Validity.{Distinct, IsValid}

-- The state that a setter leaves, given the one that it read
abbrev pub resulting : {X : Type 0} → State X → Change X → State X
resulting st raises = st
resulting st (refused r) = st
resulting st (changed st' a) = st'

module _ {X : Type 0} ⦃fl : Float X⦄ (env : Setting X) where
  -- The operator's commands on a state alone, with no file between them
  abbrev pub effect : State X → Outside → Command X → State X
  effect st out cmd = resulting st (change env out cmd (some st))

  unfoldable pub effects : State X → List (Outside × Command X) → State X
  effects st [] = st
  effects st ((out, cmd) ∷ rest) = effects (effect st out cmd) rest

  stored_next :
      (disk : Disk X) (out : Outside) (ch : Change X) (st : State X)
      → Distinct env.model_id
      → read_controls env disk.file ≡ some st
      → Written (IsValid env) ch
      → read_controls env (stored env out disk ch).file ≡ some (resulting st ch)
  unfolding read_controls
  stored_next disk out raises st d r w = r
  stored_next disk out (refused x) st d r w = r
  stored_next disk out (changed st' a) st d r w = ap some (merged-written env out.now st' d w)

  -- One command
  pub run_command_next :
      (disk : Disk X) (out : Outside) (cmd : Command X) (st : State X)
      → Shipped env
      → Distinct env.model_id
      → read_controls env disk.file ≡ some st
      → read_controls env (run_command env disk out cmd).file ≡ some (effect st out cmd)
  unfolding run_command
  run_command_next disk out cmd st s d r =
      let v = read_controls-IsValid env disk.file st s r in
      ap (λ o. read_controls env (stored env out disk (change env out cmd o)).file) r
      ∙ stored_next disk out (change env out cmd (some st)) st d r
          (change-IsValid env out cmd st s v)

  -- If the configuration keeps the rules between its fields, the three models differ and the control file can
  -- be read, then after any commands, refused ones among them, the file is read as the state that the commands
  -- make of the one first read, applied to it one after the other: nothing is lost or clamped on the way
  -- through the file.
  pub run_commands_refines :
      (disk : Disk X) (cmds : List (Outside × Command X)) (st : State X)
      → Shipped env
      → Distinct env.model_id
      → read_controls env disk.file ≡ some st
      → read_controls env (run_commands env disk cmds).file ≡ some (effects st cmds)
  unfolding run_commands effects
  run_commands_refines disk [] st s d r = r
  run_commands_refines disk ((out, cmd) ∷ rest) st s d r =
      run_commands_refines (run_command env disk out cmd) rest (effect st out cmd) s d
        (run_command_next disk out cmd st s d r)
