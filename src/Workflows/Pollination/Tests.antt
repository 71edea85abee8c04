-- ===== src/Workflows/Pollination/Tests.antt =====
-- A pollination of one dormant thread, on concrete inputs.
use kai_daemon.Base.{◌≡◌, refl, none, some, true, false, filter, String, List, [], ◌∷◌}
use kai_daemon.Base.Dict
use kai_daemon.Base.Outcome.{Outcome, Method, return}
use kai_daemon.Base.Time.{aware}
use kai_daemon.Base.Text.{Unicode, chars, starts_with}
use kai_daemon.State.Scratch.Tests.{listed}
use kai_daemon.State.Threads.{Thread, dormant, live, list_all}
use kai_daemon.State.Threads.Tests.{plain}
use kai_daemon.Workflows.Pollination.{
  Prompt, relevance_prompt, reflection_prompt, World, Settings, IntegrationResult,
  PollinationResult, new_fascination, aesthetic_reaction, inner_life_thread_pollination,
}

abbrev roman : Unicode
roman = record {
  is_space = λ c. starts_with (c ∷ []) (chars " ");
  upper = λ c. c ∷ [];
  lower = λ c. c ∷ [];
}

abbrev thread : Thread
thread = record {
  id = "t";
  title = "walks";
  central_question = "where to";
  status = dormant;
  created = aware 0;
  last_touched = aware 4;
  dormant_since = some (aware 3);
  current_state = "";
  unresolved = "";
  key_tension = none;
  stance = record { position = ""; epistemic_status = live };
  daemon_is_watching = none;
  daemon_perspectives = [];
  handoff_notes = [];
}

abbrev answer : Prompt → Method (List Prompt) String
answer (relevance_prompt topic t) asked = (return "RELEVANT", relevance_prompt topic t ∷ asked)
answer (reflection_prompt thought topic) asked =
    (return "so", reflection_prompt thought topic ∷ asked)

abbrev settings : Settings roman plain listed (List Prompt)
settings = record {
  infer = answer;
  glob = λ d. d;
  now = 100;
  touched = aware 101;
  dedup_hours = 24;
  signal_ttl_hours = 24;
  session_id = "s";
  note_id = "n";
  note_time = aware 101;
  str = λ n. "1";
}

abbrev world : World roman plain listed (List Prompt)
world = record {
  threads = record {
    threads = ("t", thread) ∷ [];
    pickup_notes = [];
    questions = none;
    handoffs = none;
  };
  scratch = record { items = []; file = none };
  model = [];
}

abbrev result : IntegrationResult
result = record {
  route = new_fascination;
  fascination_topic = some "moss";
  lifecycle_promoted = false;
  thought_content = "green";
}

relevant :
    (inner_life_thread_pollination roman plain listed (List Prompt) settings result world).0
    ≡ return (record {
      threads_pollinated = "t" ∷ [];
      signal_written = true;
      skipped_no_fascination = false;
    })
unfolding inner_life_thread_pollination filter starts_with Dict.get
relevant = refl

skipped :
    inner_life_thread_pollination roman plain listed
      (List Prompt)
      settings
      (record result { route = aesthetic_reaction })
      world
    ≡ (
      return (record {
        threads_pollinated = [];
        signal_written = false;
        skipped_no_fascination = true;
      }),
      world,
    )
unfolding inner_life_thread_pollination
skipped = refl

listed_one : list_all plain settings.glob world.threads ≡ return (thread ∷ [])
unfolding list_all
listed_one = refl

abbrev outcome : Outcome PollinationResult × World roman plain listed (List Prompt)
outcome = inner_life_thread_pollination roman plain listed (List Prompt) settings result world
