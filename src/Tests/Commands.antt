-- ===== src/Tests/Commands.antt =====
-- Commands as they arrive, for the theorems on src/application/write_service.rs,
-- src/application/reset_service.rs and src/interfaces/command_consumer.rs.
use neurolithe.Store.Memory.Graph.{newest, find_working_subject, Graph, is_command_processed}
use mathlib.Core.List.Perm
use neurolithe.App.Commands.Ledger.{IsFailed, handle-IsHandled, IsHandled}
use neurolithe.App.Resets.{byte_at, constant_time_eq, ResetService}
use neurolithe.App.Commands.Redelivery.{redeliver-first_applied, first_applied, redeliver}
use neurolithe.App.Commands.Subjects.{
  find_or_create_subject_lost, find_or_create_subject_reused, find_again,
}
use neurolithe.Interfaces.Commands.Losses.{consume_loses_failed, is_error}
use neurolithe.Base.Maps.{lookup, Map}
use neurolithe.App.Commands.{
  remember_command, find_or_create_subject, remember_stm, remember, SubjectRef, RememberCommand,
  Service, handle, Delivery, Stores, stm,
}
use neurolithe.Interfaces.Commands.Starts.{pin_command_start-IsPinned, IsPinned}
use neurolithe.Interfaces.Commands.{pin_command_start, consume, Consumer, Consuming, Message}
use neurolithe.Base.Text.{text, Text}
use neurolithe.App.Resets.Tokens.{constant_time_eq_iff}
use neurolithe.Base.Outcome.{Ensures}
use neurolithe.Store.Ltm.Rows.{Store}
use neurolithe.Base.{
  ℕ, zero, suc, ◌≡◌, refl, ap, ◌≢◌, ◌↔◌, true, none, some, List, [], ◌∷◌, arith, nat_key, text_key,
}
use neurolithe.Tests.Floats.{Fixed, fixed}
use neurolithe.Tests.Unicode.{ascii}

abbrev graph : Graph Fixed (List Fixed)
graph = record {
  memory = record { nodes = []; edges = []; vec_nodes = []; episodes = []; ccl_registry = [] };
  next_id = 1;
  next_episode_id = 1;
  processed_commands = [];
}

abbrev tree : Store Fixed (List Fixed)
tree = record {
  next_id = 1;
  clock = 0;
  tree_nodes = [];
  tree_edges = [];
  leaves = [];
  vec_ltm = [];
  vec_leaves = [];
  doc_bodies = [];
}

abbrev stores : Stores Fixed
stores = record { short_term = graph; long_term = tree }

abbrev service : Service fixed
service = record {
  unicode = ascii;
  hash = record { order = λ xs. xs; order-perm = λ xs. Perm.refl xs };
  nearest = λ rows v k. [];
  placing = record {
    max_distance = fixed.decimal 5 1;
    min_margin = fixed.decimal 0 0;
    max_summary_len = 600;
  };
  stm_vector_dim = 2;
}

abbrev lease : SubjectRef
lease = record { data_id = text "doc-1"; label = text "The lease" }

-- A turn about a document.
abbrev rent : RememberCommand
rent = record {
  command_id = text "c1";
  scope = stm;
  fact = some (text "the rent is due");
  note = none;
  ccl = none;
  context_key = some (text "thread-1");
  tags = [];
  subjects = lease ∷ [];
}

-- A delivery at which the model does not answer, and one at which it does.
abbrev silent : Delivery Fixed
silent = record { now = 1; uuid = text "u1"; embed_text = λ t. none }

abbrev answering : Delivery Fixed
answering = record {
  now = 2;
  uuid = text "u2";
  embed_text = λ t. some (fixed.decimal 1 0 ∷ fixed.decimal 0 0 ∷ []);
}

handle-IsHandled_example :
    Ensures
      (IsHandled fixed service answering (remember_command rent) (text "c1") stores)
      (IsFailed fixed service answering (remember_command rent) (text "c1") stores)
      (handle fixed service answering (remember_command rent) stores)
handle-IsHandled_example =
    handle-IsHandled fixed service answering (remember_command rent) (text "c1") stores refl

redeliver-first_applied_example :
    redeliver fixed service (remember_command rent) (silent ∷ answering ∷ answering ∷ []) stores
    ≡ first_applied fixed service
        (remember_command rent)
        (silent ∷ answering ∷ answering ∷ [])
        stores
redeliver-first_applied_example =
    redeliver-first_applied fixed service (remember_command rent) (text "c1") refl
      (silent ∷ answering ∷ answering ∷ []) stores

find_or_create_subject_reused_example :
    find_again fixed service 2
      (text "thread-1")
      lease
      (find_or_create_subject fixed service 2 (text "thread-1") (text "working") lease graph).0
    ≡ some (find_or_create_subject fixed service 2 (text "thread-1") (text "working") lease graph).1
find_or_create_subject_reused_example =
    find_or_create_subject_reused fixed service 2 (text "thread-1") lease graph tt

none_yet : find_again fixed service 2 (text "thread-1") lease graph ≡ none
unfolding find_working_subject newest
none_yet = refl

abbrev first_char : Text → ℕ
first_char t = byte_at t 0

is_other : text "reality" ≢ text "working"
is_other e = absurd (omega (arith, ap first_char e))

find_or_create_subject_lost_example :
    (find_again fixed service 2
        (text "thread-1")
        lease
        (find_or_create_subject fixed service 2 (text "thread-1") (text "reality") lease graph).0
      ≡ none)
    × ((find_or_create_subject fixed service 2 (text "thread-1") (text "reality") lease graph).1
        ≡ 1)
find_or_create_subject_lost_example =
    find_or_create_subject_lost fixed service 2 (text "thread-1") lease (text "reality") graph
      is_other none_yet

constant_time_eq_iff_example :
    (constant_time_eq (115 ∷ 101 ∷ []) (115 ∷ 102 ∷ []) ≡ true)
    ↔ ◌≡◌ {A = List ℕ} (115 ∷ 101 ∷ []) (115 ∷ 102 ∷ [])
constant_time_eq_iff_example =
    constant_time_eq_iff (115 ∷ 101 ∷ []) (115 ∷ 102 ∷ []) (omega arith, (omega arith, tt))
      (omega arith, (omega arith, tt))

-- Bytes that tell any two texts apart: a character is as many ones, and a zero.
ones_then : ℕ → List ℕ → List ℕ
ones_then zero bs = 0 ∷ bs
ones_then (suc n) bs = 1 ∷ ones_then n bs

bytes_of : Text → List ℕ
bytes_of [] = []
bytes_of (c ∷ t) = ones_then c (bytes_of t)

read_back : List ℕ → ℕ → Text
read_back [] n = []
read_back (zero ∷ bs) n = n ∷ read_back bs 0
read_back (suc b ∷ bs) n = read_back bs (suc n)

abbrev resets : ResetService
resets = record {
  confirm_token = some (text "wipe-the-stores!");
  spine = record { path = text "notes"; description = text "Notes." } ∷ [];
  utf8 = bytes_of;
}

pin_command_start-IsPinned_example :
    (after : Map ℕ ℕ) × (pin_command_start ((0, 5) ∷ (1, 9) ∷ []) ((1, 3) ∷ []) ≡ some after)
    × IsPinned ((0, 5) ∷ (1, 9) ∷ []) ((1, 3) ∷ []) after
pin_command_start-IsPinned_example =
    pin_command_start-IsPinned ((0, 5) ∷ (1, 9) ∷ []) ((1, 3) ∷ []) (λ e. cc e)

-- A consumer whose messages are all the turn.
abbrev consumer : Consumer fixed
consumer = record {
  write = service;
  reset = resets;
  parse = λ bytes. some (remember_command rent);
  embed_spine = λ s. s;
}

abbrev message : Message Fixed
message = record {
  partition = 0;
  offset = 7;
  payload = some (1 ∷ []);
  delivery = silent;
  is_committed = true;
}

abbrev consuming : Consuming Fixed
consuming = record { stores = stores; committed = []; rewinds = 0 }

turn_fails : is_error (handle fixed service silent (remember_command rent) stores) ≡ true
unfolding handle remember remember_stm is_command_processed
turn_fails = refl

consume_loses_failed_example :
    ((consume fixed consumer message consuming).stores ≡ stores)
    × (lookup 0 (consume fixed consumer message consuming).committed ≡ some 8)
consume_loses_failed_example =
    consume_loses_failed fixed consumer message consuming (1 ∷ []) (remember_command rent)
      (text "c1") refl refl refl turn_fails refl
