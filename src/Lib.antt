-- ===== src/Lib.antt =====
-- This library models parts of AiTrader, a trading system whose Python services decide what the
-- trading core may look at: an evaluation of news judgments, a discovery watchlist, a council of
-- language models, a control file that the operator's commands change, and a watchdog over the running
-- stack.
--
-- The parts and how they interact. The news experiment records headlines (de-duplicated, anchored at
-- the first moment at which they can be acted on); the news evaluation reads the recorded counts,
-- computes the cutoff of the analysis set and gives the verdict. Discovery screens symbols by cheap
-- gates, asks the council, and adds the survivors that the venue serves to the watchlist, from which
-- the tradeable universe is resolved, which the core polls. The watchdog checks that universe's feed
-- and restarts a sick stack under its own guards. Each part is a module tree of its own. A discovery
-- pass is composed of the funnel, the watchlist and the judgement of Universe; the watchdog's check of
-- Universe and the feed; the funnel takes the gate's decision from Council, the providers give
-- Council's verdicts. Otherwise what a part takes from another is an argument of its definitions.
--
--   Verdict    news_eval/verdict.py with the bars and floors of news_eval/constants.py. Verdict/Status:
--              null_informative, estimate, interval, bar_met, upper_tail, permutation_confirms,
--              primary_status, e_status, strength_status. Verdict/Gross: gross_reading. Verdict/Rows:
--              net_abstention, verdict_rows. Verdict/Decide: decide_reading, readings_disagreement,
--              story_comparison, decide. A result dict is a record, a key that may be missing an Option.
--   Cutoff     news_eval/cutoff.py: compute_s_star with its helpers, analysis_cutoff and
--              hard_stop_record; Cutoff/Days: excluded_query_dates. A ValueError is none.
--   Watchlist  discovery/watchlist.py: apply_event and everything that goes through it (the removals in
--              Watchlist/Removal), with the two tables (Watchlist/Table) as lists in row order; the
--              feature flag and the clock are arguments.
--   Watchdog   ops/watchdog.py: run_once, attempt_restart, _condition_key, _note_universe and the guard's
--              file. A cycle takes what the probes, the clock and the supervisor answered and gives the
--              next state, an action and the list of its effects. Times are whole ticks of one clock.
--              Watchdog/State holds the data; Guard, Escalation, RateCap, Loop and Degraded hold the proofs.
--              Watchdog/Feed: feed_ok over what the database answers of each symbol, an age being a
--              whole number of ticks; Watchdog/Check: check_health, bridge_state, tradeable_symbols and
--              universe_state, over one database and one configuration, with the other probes'
--              answers as a record. Of several newest bars with one timestamp the first counts. A
--              database that cannot be read is one whose connection fails; sqlite3 opens a file lazily,
--              so that in the code some such files fail at the first query instead.
--   Universe   market_data/tradeable.py and market_data/universe.py: the bars table as its schema shows
--              it, the predicate and the trading scope, the declared symbols, resolve on each of its
--              branches (Universe); the parsing of a whitelist (Universe/Text); verify_serviceable and
--              verify_core (Universe/Serviceable), over what a backfill came to. A configured value is
--              a text or missing.
--   Horizon    news_experiment/horizon.py: Calendar and resolve_anchor. The time zone arithmetic is an
--              argument. The loop runs on fuel, one unit to a session; the length of the calendar is
--              enough, since each step goes to the next session of a calendar that repeats none.
--   Dedup      news_experiment/dedup.py: Deduplicator.consider and the story groups. Text normalisation
--              and the digest are arguments.
--   Council    llm_consensus/gate.py and discovery/gate.py (Council/Gate), the vote of
--              llm_consensus/consensus.py over the verdicts of llm_consensus/verdicts.py (Council/Vote),
--              and consensus itself with its checks (Council/Round). The evidence builder, the gate and
--              the providers are arguments of a round.
--   Funnel     discovery/funnel.py: prescreen and what it ranks by (Funnel/Screen), gate_state and
--              gate_finalists (Funnel/Gate), _budget_cost, evaluate_survivors and sleeve_target_for
--              (Funnel/Evaluate), run_pass (Funnel/Pass). Funnel/Day: us_market_open,
--              effective_daily_budget and due of discovery/run.py, and the passes of a day, each run on
--              what the table discovery_pass records of the earlier ones. The gate and the evaluator
--              are arguments that may fail; what prepare_survivors is given, the survivors and their
--              screens, is given to the evaluator. A verdict has the keys that the funnel reads.
--   Discovery  discovery/run.py: what a pass reads and keeps, with last_pass_ts of discovery/store.py,
--              universe_for of discovery/universe.py and recent_onboarding_refusals of
--              discovery/watchlist.py (Discovery/State); onboard and the joining of its two calls
--              (Discovery/Onboard), the loop over the candidates (Discovery/Join), run_once and run_due
--              (Discovery/Run). The backfill, the fetch of the snapshots and the texts of reasons are
--              arguments. The loop carries the watchlist as it was last committed and as its own
--              connection sees it; an exception in it leaves the one last committed, the recorded pass
--              and the bars, which another connection wrote. run_due's own test of
--              the flag, which each of its passes repeats, is left out.
--   Provider   llm_consensus/provider_health.py: classify and the latch (Provider/Health);
--              llm_consensus/providers.py: _call_with_retry (Provider/Call), score with
--              verdict_from_payload of llm_consensus/verdicts.py (Provider/Score), and the calls of a
--              process over one latch (Provider/Session), among which nothing calls reset_exhaustion, as
--              news_experiment/credentials.py does between two checks; llm_consensus/http_json.py:
--              extract_json_object and _repair_object (Provider/Reply). A call's outcome and the readings
--              of the clock, in milliseconds, are arguments by their number; the two regular expressions
--              and the JSON decoder are arguments. The loop of the retry runs on max_attempts as its fuel, the scan
--              for objects on the length of the text and one more.
--   Controls   api_server/controls.py: the values of the file and their conversions (Controls/Values), the
--              state and its bounds (Controls/State, Controls/Keys), _defaults (Controls/Defaults) and
--              read_controls (Controls/Read), what _write_controls dumps (Controls/Write), the setters
--              (Controls/Outcome, Controls/Setters), its rules in their own words (Controls/Rules), and their commands over one file (Controls/Commands).
--              A dict over fixed keys is a function on them; a setter's change of the state that it read,
--              with its audit row, stands apart from the file. No number of the file is infinite or beyond
--              the range of a float. The whitelist, the configuration and the language's conversions are arguments.
--   Base       shared: tests on native numbers, lists, sorting, texts and their order, integers, the
--              interface Float of Python's floats, and decimal numbers for the tests.
--
-- Floats are an interface without laws; a theorem that needs a law of arithmetic names it. Dicts are
-- lists of pairs. Reads of the environment are arguments, writes are effects or the new state.
--
-- Not modelled: the rendered sentences of the verdict and of the universe, the evidence builder,
-- persistence, the providers' HTTP requests, the weights and the promotion requests of the controls,
-- the backfill, the fetching of snapshots, the ranking of the crypto universe, the statistics of the
-- news evaluation, the API server, the user interfaces and the C++ core. They are text, I/O, or code of
-- other components.
pub mod Base
pub mod Verdict
pub mod Cutoff
pub mod Watchlist
pub mod Universe
pub mod Watchdog
pub mod Horizon
pub mod Council
pub mod Dedup
pub mod Funnel
pub mod Discovery
pub mod Provider
pub mod Controls
