-- ===== src/Aggregation/Tests.antt =====
-- Counts of requests by the number of their operation.
use metrique.Prelude.{
  ℕ, ◌+◌, ◌≤◌, ◌≡◌, refl, true, false, none, some, List, [], ◌∷◌, ◌++◌, ◌==◌, ==_iff, total, length,
  All,
}
use metrique.Aggregation
use metrique.Aggregation.{AggregateStrategy, HashOrder, merge, flush, get_or_create_accum}
use metrique.Aggregation.Worker
use metrique.Aggregation.Worker.{
  WorkerSink, QueueMessage, flush_request, entry, Action, step, send_entry, ask_flush, drop_sender,
  run, act,
}
use metrique.Aggregation.Inv.{Weight, entries_of}
use metrique.Aggregation.Delivery.{
  reached, rounds, ended_worker_delivers, answered_after_flush, worker_ends,
}
use metrique.Aggregation.Lookup.{find, is_at, absorb_entries, merge_entries, merge_by_key}

-- A source is an operation and a duration, and durations are summed.
abbrev durations : AggregateStrategy
durations = record {
  Source = ℕ × ℕ;
  Key = ℕ;
  Merged = ℕ;
  Closed = ℕ × ℕ;
  key = λ (operation, duration). operation;
  static_key_matches = λ k l. k == l;
  new_merged = 0;
  merge = λ m (operation, duration). m + duration;
  close = λ k m. (k, m);
  matches_refl = λ k. (==_iff k k).1 refl;
  matches_sound = λ k l h. (==_iff k l).0 h;
}

abbrev in_place : HashOrder (ℕ × ℕ)
in_place = record { drain = λ xs. xs; total-drain = λ f xs. refl }

abbrev sum_of_durations : Weight durations
sum_of_durations = record {
  weigh = λ (k, m). m;
  weigh_source = λ (operation, duration). duration;
  new_weight = λ k. refl;
  merge_weight = λ k m e. refl;
}

abbrev requests : List (ℕ × ℕ)
requests = (7, 10) ∷ (8, 1) ∷ (7, 5) ∷ []

merge_by_key_example :
    (find durations 7 (merge_entries durations requests (Aggregation.new durations)).storage
      ≡ absorb_entries durations 7 none requests)
    × (total
          (is_at durations 7)
          (merge_entries durations requests (Aggregation.new durations)).storage
        ≤ 1)
merge_by_key_example = merge_by_key durations in_place requests 7

requests_of_7 : absorb_entries durations 7 none requests ≡ some 15
requests_of_7 = refl

-- Two entries, a flush request, a third entry, and the last sender dropped.
abbrev story : List (Action (ℕ × ℕ))
story =
    send_entry (7, 10)
    ∷ send_entry (7, 5)
    ∷ ask_flush
    ∷ step false
    ∷ send_entry (8, 1)
    ∷ step false
    ∷ step false
    ∷ drop_sender
    ∷ step false
    ∷ step false
    ∷ []

abbrev told : WorkerSink durations
told = reached durations in_place story

story_sink : told.inner.sink ≡ (7, 15) ∷ (8, 1) ∷ []
unfolding run act Worker.new Aggregation.new merge flush
story_sink = refl

story_ended : told.running ≡ false
unfolding run act Worker.new Aggregation.new merge flush
story_ended = refl

ended_worker_delivers_example :
    total (λ (k, m). m) told.inner.sink ≡ total (λ (operation, duration). duration) told.sent
ended_worker_delivers_example =
    ended_worker_delivers durations in_place sum_of_durations story story_ended

answered_after_flush_example :
    All (λ n. n ≤ length told.covered) told.answered
    × (told.sent ≡ told.covered ++ (told.kept ++ entries_of told.channel))
    × (total (λ (k, m). m) told.inner.sink ≡ total (λ (operation, duration). duration) told.covered)
answered_after_flush_example = answered_after_flush durations in_place sum_of_durations story

-- Messages in the channel and no sender.
abbrev left_alone : WorkerSink durations
left_alone = record {
  channel = entry (7, 10) ∷ flush_request 1 ∷ [];
  senders = 0;
  inner = Aggregation.new durations;
  running = true;
  sent = (7, 10) ∷ [];
  covered = [];
  kept = [];
  answered = [];
}

worker_ends_example :
    (rounds durations in_place (true ∷ false ∷ true ∷ []) left_alone).running ≡ false
worker_ends_example =
    worker_ends durations in_place (true ∷ false ∷ []) true left_alone refl refl refl
