-- ===== src/Tests/Fixtures.antt =====
-- An engine, a duel of the users 1 and 2, and databases in which it stands.
use leetbattle.Shared.{ℕ, ◌+◌, ◌*◌, true, false, Option, some, none, List, [], ◌∷◌, length}
use leetbattle.Domain.Types.{
  Difficulty, easy, python, java, duel, coding, MatchState, submit, Verdict, Activity, thinking,
  one, two, Slot, ProblemRef,
}
use leetbattle.Store.Rows.{
  Db, MatchRow, ParticipantRow, ExecutionRow, ExecutionStatus, Summary, ReceiptRow, CommandType,
  ok_response,
}
use leetbattle.Match.Config.{
  Engine, Payload, room_payload, join_payload, language_payload, ready_payload, empty_payload,
  execution_payload, answer_payload,
}

abbrev pub two_sum : ProblemRef
two_sum = record { problem = 1; version = 1; title = "Two sum"; difficulty = easy }

abbrev pub parentheses : ProblemRef
parentheses = record { problem = 2; version = 1; title = "Parentheses"; difficulty = easy }

abbrev pub catalog_of : Difficulty → List ProblemRef
catalog_of easy = two_sum ∷ parentheses ∷ []
catalog_of _ = []

abbrev pub hash : Payload → ℕ
hash (room_payload d m c) = 1
hash (join_payload token) = 100 + token
hash (language_payload python) = 2
hash (language_payload java) = 3
hash (ready_payload true) = 4
hash (ready_payload false) = 5
hash empty_payload = 6
hash (execution_payload kind source) = 7
hash (answer_payload text) = 8 + length text * 10

abbrev pub engine : Engine
engine = record {
  countdown_ms = 4000;
  reconnect_grace_seconds = 60;
  rematch_window_seconds = 30;
  sample_rate_limit_seconds = 2;
  failed_submission_cooldown_seconds = 10;
  max_source_bytes = 65536;
  answer_duration_ms = 600000;
  choose_index = λ n. 0;
  coding_problems = catalog_of;
  ai_ml_problems = λ d. [];
  ai_ml_get = λ q v. none;
  invite_token = λ user key. key;
  sha256 = λ bytes. length bytes;
  hash_payload = hash;
}

abbrev pub match_in : MatchState → MatchRow
match_in s = record {
  id = 7;
  room_id = 3;
  challenge = coding;
  mode = duel;
  round_number = 1;
  previous_match = none;
  state = s;
  difficulty = easy;
  problem = some two_sum;
  starts_at = some 1000;
  answer_deadline_at = none;
  finished_at = none;
  rematch_deadline = none;
  rematch_created = none;
  winner = none;
  end_reason = none;
  records_applied = false;
  version = 4;
}

abbrev pub player : ℕ → Slot → ParticipantRow
player user slot = record {
  match_id = 7;
  user = user;
  slot = slot;
  language = some python;
  ready_at = some 500;
  activity = thinking;
  best_passed_count = 0;
  hidden_test_count = none;
  cooldown_until = none;
  last_sample_run_at = none;
  active_execution = none;
  connected = true;
  disconnected_at = none;
  reconnect_deadline = none;
  outcome = none;
}

abbrev pub submission : ℕ → ℕ → ExecutionStatus → Option Summary → ExecutionRow
submission id user status result = record {
  id = id;
  match_id = 7;
  user = user;
  key = id ∷ [];
  kind = submit;
  language = python;
  source_hash = 1;
  source_bytes = 20;
  received_at = 2000;
  sequence = id;
  status = status;
  attempts = 1;
  result = result;
  created_at = 2001;
}

abbrev pub all_passed : Summary
all_passed = record {
  verdict = Verdict.accepted;
  passed_count = 10;
  total_count = 10;
  runtime = some 5000;
  compile = none;
  cooldown_until = none;
  details = none;
}

abbrev pub database : MatchRow → List ParticipantRow → List ExecutionRow → Db
database m ps xs = record {
  profiles = record { user = 1; username = "ada" } ∷ record { user = 2; username = "alan" } ∷ [];
  records =
      record { user = 1; wins = 2; losses = 0 } ∷ record { user = 2; wins = 1; losses = 1 } ∷ [];
  rooms = [];
  members = [];
  matches = m ∷ [];
  participants = ps;
  executions = xs;
  events = [];
  receipts = [];
  sessions = [];
  votes = [];
  answers = [];
  evaluations = [];
  questions = [];
  prompts = [];
  clock = 1000000;
  delays = 1 ∷ 1 ∷ 1 ∷ [];
  next_id = 50;
  next_sequence = 90;
}

abbrev pub players : List ParticipantRow
players = player 1 one ∷ player 2 two ∷ []

-- The second player has left, and the time to return is over.
abbrev pub abandoned : List ParticipantRow
abandoned =
    player 1 one
    ∷ record (player 2 two) { connected = false; reconnect_deadline = some 900000 }
    ∷ []

-- The first player waits for the submission 9.
abbrev pub waiting : List ParticipantRow
waiting =
    record (player 1 one) { active_execution = some 9; activity = Activity.judging }
    ∷ player 2 two
    ∷ []

abbrev pub receipt : CommandType → ℕ → ReceiptRow
receipt command payload_hash = record {
  actor = 1;
  key = 5 ∷ [];
  command = command;
  match_id = some 7;
  payload_hash = payload_hash;
  response = some ok_response;
  completed_at = some 900000;
}
