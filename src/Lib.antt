-- ===== src/Lib.antt =====
-- The Python governance tooling of HH.AI (scripts/): how a batch of work is checked before and after
-- it is committed.
--
-- Parts and files
--   Base       shared helpers. Text is a list of code points (Base/Strings), with the string methods
--              that the scripts use; Base/Decimal writes integers as `str` does; Base/Lists has the
--              list operations over the native ℕ; Base/Lines has strip and splitlines;
--              Base/Results has errors as values.
--   History    scripts/history_guard.py, the pure rules. `Files` maps a path to the text of a file or
--              to `none`. History/Lines is split_lines, first_unmatched and check_insert_only;
--              History/Ledger is ledger_section and the regular expressions, each written out as the
--              function that decides its match; History/Ledger/Check is check_ledger and
--              check_own_placeholder; History/Evaluate is check_exec_log_transition and evaluate.
--              The rule of CHECK 17, which a caller passes to evaluate, is a parameter. Of a finding
--              the code and the values shown are kept, not the wording.
--   Gate       scripts/gate_runner.py. Gate/Format has STAGES, GATE_TIMEOUTS and the lines of the
--              log; Gate/Run is run_stage; Gate/Verify is verify_stage. The log is the text of the
--              file. How a gate comes back (run_bounded of scripts/bounded_process.py) and the name
--              of the log are the fields of `World`. What is only printed, and the time limit that
--              tests may pass, are left out.
--   StateEdit  scripts/state_edit.py. StateEdit/Ops is run_ops with text_op and single_line of
--              scripts/prompt_builder.py and apply_ops of scripts/batch_runner.py; StateEdit/Checks
--              is the byte rule, the scope of a task and the checks of a document; StateEdit/Apply is
--              read_plan, classify and apply; StateEdit/Seal is seal. The files are a function from
--              paths to bytes that apply changes; a stop is a value of `Result`. The hash, the UTF-8
--              codec, JSON, the answers of the file system for a path and the outcome of a replace
--              are fields of `World` and of `Faults`; the prompt checks of governance_preflight.py
--              and validate_prompt_manifest.py come in through the field `contract_paths`. A document
--              of another shape than its type does not load. StateEdit/Codec is a codec that stands
--              for JSON in the runs of StateEdit/Tests.
--   Guard      scripts/c9_base_guard.py and scripts/c9_local_history_guard.py. Guard/Git has the
--              patterns and `_git`; Guard/Classify is classify; Guard/Inventory is inventory. Git is
--              a parameter that answers each query by its number, so that it may answer the same
--              query differently later. The RuntimeError is a value of `Failure`.
--   Paths      scripts/execution_record.py, the path rules: Paths/Syntax has normalize_repo_path,
--              validate_path_syntax and validate_external_artifact_path. Of a refusal the kind is
--              kept, not the wording.
--   Json       a parsed JSON document, and the tests that the scripts make on it.
--   Ci         scripts/verification_primitives.py, ci-status: Ci/Transport is the requests of
--              do_get_json with their retries, Ci/Poll the checks of the arguments and the loop over
--              the attempts, Ci/Status the verdict on the run and its jobs. The requests of a query,
--              each with the times before and after it in milliseconds, and json.loads are fields of
--              `World`. The limits are natural numbers.
--   Primitives the other commands of that script: Primitives/Count, Primitives/Digest and
--              Primitives/Diff are cmd_count, cmd_sha256 and cmd_git_diff_digest. Files, the UTF-8
--              codec, the hash and git are fields of `World`; `emit_unable` is a value of `Reason`.
--   Push       scripts/governance_preflight.py, the authorisation of a push that moves main or deletes
--              branches: Push/Create is create_main_advancement_auth and create_remote_delete_auth,
--              Push/Updates the reading of the lines of the pre-push hook, Push/Verify
--              verify_and_consume_push and its callers. The file is kept as the document that JSON
--              reads back from it; whether a write or the removal succeeds is an argument. `lower`
--              is `str.lower` for the letters of ASCII.
--   Runner     scripts/batch_runner.py, the steps of a batch: Runner/Plan is derive_steps;
--              Runner/Records the control record with check_control, accepted_runner_sha and
--              save_control; Runner/Start is precontrol_start_guard; Runner/Run is main for every
--              step but `timing`. The methods of the steps, git and the file operations are fields of
--              `World`, and each call has a world of its own. A control file holds a record, is no
--              JSON, or is not there; JSON that is no such record does not occur.
--   Intake     scripts/prompt_intake.py: Intake/Checks is ensure_safe_directory_chain and the checks of
--              intake, Intake/Copy the exclusive creation of the target and its verification. The file
--              system, the hash and the path checks of governance_preflight.py are fields of `World`
--              and of `Copying`.
--
-- Loops are structural recursions over the lines, the gates or the paths, or over the number of
-- attempts that the source allows (3 requests, 60 polls at most, 5 retries of a replacement), so that no
-- fuel is needed.
-- Numbers are natural numbers, and an exit code is an integer, as Python's are unbounded.
--
-- Not modelled: the lint of status texts in history_guard (difflib) and its git layer; all argument
-- parsing, and the main functions but that of batch_runner; in state_edit the check of the artifact
-- paths, a failed write of the plan file and the steps inside replace_file; the rest of
-- execution_record; the path checks, the rule registry and the runs of governance_preflight; in
-- batch_runner load_spec, the step methods and the reports after a halt; the pauses between polls and
-- limits below zero in ci-status; and the scripts that the parts above do not name.
pub mod Base
pub mod Ci
pub mod Gate
pub mod Guard
pub mod History
pub mod Intake
pub mod Json
pub mod Paths
pub mod Primitives
pub mod Push
pub mod Runner
pub mod StateEdit
