-- ===== src/Aggregation/Worker.antt =====
-- metrique-aggregation/src/sink/worker.rs: a thread that owns an aggregator and is sent entries and
-- flush requests. What it reads of the clock is a parameter of its step.
use metrique.Prelude.{
  ℕ, ◌+◌, ◌-◌, Bool, true, false, List, [], ◌∷◌, ◌++◌, ◌==◌, length, if◌then◌else◌,
}
use metrique.Aggregation
use metrique.Aggregation.{AggregateStrategy, HashOrder, KeyedAggregator, merge, flush}

-- A flush request is told by the number of entries sent before it.
pub data QueueMessage (E : Type 0) : Type 0 where
  entry : E → QueueMessage E
  flush_request : ℕ → QueueMessage E

module _ (strategy : AggregateStrategy) where
  open strategy use {Source, Key, Merged}

  -- The channel, the number of its senders, and the thread. The last four fields record what
  -- happened, and no step reads them but `length sent`, which names a request: the entries sent,
  -- those merged and flushed, those merged since the last flush, and the requests answered.
  pub record WorkerSink : Type 0 where
    pub channel : List (QueueMessage Source)
    pub senders : ℕ
    pub inner : KeyedAggregator strategy
    pub running : Bool
    pub sent : List Source
    pub covered : List Source
    pub kept : List Source
    pub answered : List ℕ

  unfoldable pub new : WorkerSink
  new = record {
    channel = [];
    senders = 1;
    inner = Aggregation.new strategy;
    running = true;
    sent = [];
    covered = [];
    kept = [];
    answered = [];
  }

  unfoldable pub send : Source → WorkerSink → WorkerSink
  send e s = record s { channel = s.channel ++ entry e ∷ []; sent = s.sent ++ e ∷ [] }

  unfoldable pub request_flush : WorkerSink → WorkerSink
  request_flush s = record s { channel = s.channel ++ flush_request (length s.sent) ∷ [] }

  module _ (order : HashOrder (Key × Merged)) where
    unfoldable pub flush_inner : WorkerSink → WorkerSink
    flush_inner s = record s {
      inner = flush strategy order s.inner;
      covered = s.covered ++ s.kept;
      kept = [];
    }

    unfoldable pub receive_entry : Bool → Source → WorkerSink → WorkerSink
    unfolding flush_inner
    receive_entry elapsed e s =
        let merged = record s { inner = merge strategy e s.inner; kept = s.kept ++ e ∷ [] } in
        if elapsed then flush_inner merged else merged

    -- One round of the loop. `recv_timeout` fails on an empty channel: as disconnected without any
    -- sender, and when the time has run out with one.
    unfoldable pub receive : Bool → List (QueueMessage Source) → WorkerSink → WorkerSink
    unfolding flush_inner receive_entry
    receive elapsed [] s =
        if s.senders == 0 then record (flush_inner s) { running = false } else flush_inner s
    receive elapsed (entry e ∷ rest) s = receive_entry elapsed e (record s { channel = rest })
    receive elapsed (flush_request n ∷ rest) s =
        record (flush_inner (record s { channel = rest })) { answered = s.answered ++ n ∷ [] }

    unfoldable pub worker_step : Bool → WorkerSink → WorkerSink
    unfolding receive
    worker_step elapsed s = if s.running then receive elapsed s.channel s else s

-- What can happen next. Only who holds a sender sends, asks for a flush, clones or drops it.
pub data Action (E : Type 0) : Type 0 where
  step : Bool → Action E
  send_entry : E → Action E
  ask_flush : Action E
  clone_sender : Action E
  drop_sender : Action E

module _ (strategy : AggregateStrategy) (order : HashOrder (strategy.Key × strategy.Merged)) where
  unfoldable pub act : Action strategy.Source → WorkerSink strategy → WorkerSink strategy
  unfolding worker_step send request_flush
  act (step elapsed) s = worker_step strategy order elapsed s
  act (send_entry e) s = if s.senders == 0 then s else send strategy e s
  act ask_flush s = if s.senders == 0 then s else request_flush strategy s
  act clone_sender s = if s.senders == 0 then s else record s { senders = s.senders + 1 }
  act drop_sender s = record s { senders = s.senders - 1 }

  unfoldable pub run : List (Action strategy.Source) → WorkerSink strategy → WorkerSink strategy
  run [] s = s
  run (a ∷ actions) s = run actions (act a s)
