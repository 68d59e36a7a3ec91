-- ===== src/Controls/Commands.antt =====
-- The control file under the setters of api_server/controls.py, one command after the other.
use ai_trader.Base.{Bool, Option, List, [], ◌∷◌, ◌++◌, Float, String}
use ai_trader.Controls.Defaults.{Setting}
use ai_trader.Controls.Keys.{
  layer_name, source_layer_name, source_name, feed_name, clock_name, sleeve_name, flag_name,
  sources, feed_modes, clock_modes, named,
}
use ai_trader.Controls.Outcome.{Outside, Audit, Change, raises, refused, changed}
use ai_trader.Controls.Read.{read_controls}
use ai_trader.Controls.Setters.{
  change_discovery, change_long_term, change_adaptive_flag, change_layer, change_discovery_settings,
  change_adaptive_settings, change_sleeve, change_rebalance, change_source, change_feed_clock,
  change_model, change_rl, change_auto_promote, change_budget, asked_regime, change_regime,
}
use ai_trader.Controls.State.{State}
use ai_trader.Controls.Values.{Scalar, Block, Saved, object}
use ai_trader.Controls.Write.{
  all_layers, source_layers, slots, all_sleeves, adaptive_flags, written,
}

pub data Command (X : Type 0) : Type 0 where
  set_discovery set_long_term set_rl set_auto_promote : Bool → Command X
  set_adaptive_flag set_sleeve set_layer set_model : String → Bool → Command X
  set_discovery_settings set_adaptive_settings : Block X → Command X
  request_rebalance : Command X
  set_source set_feed_clock : String → String → Command X
  set_budget : Scalar X → Scalar X → Command X
  set_regime : String → Option String → Command X

module _ {X : Type 0} ⦃fl : Float X⦄ (env : Setting X) (out : Outside) where
  -- The setter that a command calls, with its texts looked up in the domains
  unfoldable pub change : Command X → Option (State X) → Change X
  unfolding change_discovery change_long_term change_adaptive_flag change_sleeve change_rebalance
      change_source change_feed_clock change_model change_rl change_auto_promote change_budget
      change_regime
  change (set_discovery b) read = change_discovery env out b read
  change (set_long_term b) read = change_long_term env out b read
  change (set_rl b) read = change_rl env out b read
  change (set_auto_promote b) read = change_auto_promote env out b read
  change (set_adaptive_flag s b) read =
      change_adaptive_flag env out (named flag_name adaptive_flags s) b read
  change (set_sleeve s b) read = change_sleeve env out (named sleeve_name all_sleeves s) b read
  change (set_layer l b) read = change_layer env out (named layer_name all_layers l) b read
  change (set_discovery_settings s) read = change_discovery_settings env out s read
  change (set_adaptive_settings s) read = change_adaptive_settings env out s read
  change (set_model m b) read = change_model env out m (named env.model_id slots m) b read
  change request_rebalance read = change_rebalance env out read
  change (set_source l s) read =
      change_source env out (named source_layer_name source_layers l)
        (named source_name sources (out.lower (out.strip s))) read
  change (set_feed_clock f c) read =
      change_feed_clock env out (named feed_name feed_modes (out.strip f))
        (named clock_name clock_modes (out.strip c)) read
  change (set_budget d c) read = change_budget env out d c read
  change (set_regime s r) read = change_regime env out s (asked_regime env out r) read

-- The control file and the audit log
pub record Disk (X : Type 0) : Type 0 where
  pub file : Saved X
  pub log : List (Audit X)

module _ {X : Type 0} ⦃fl : Float X⦄ (env : Setting X) where
  abbrev pub stored : Outside → Disk X → Change X → Disk X
  stored out disk raises = disk
  stored out disk (refused r) = disk
  stored out disk (changed st a) = record {
    file = object (written env.model_id out.now st);
    log = disk.log ++ a ∷ [];
  }

  unfoldable pub run_command : Disk X → Outside → Command X → Disk X
  unfolding change read_controls written
  run_command disk out cmd = stored out disk (change env out cmd (read_controls env disk.file))

  -- The commands of a day, one after the other
  unfoldable pub run_commands : Disk X → List (Outside × Command X) → Disk X
  unfolding run_command
  run_commands disk [] = disk
  run_commands disk ((out, cmd) ∷ rest) = run_commands (run_command disk out cmd) rest
