-- ===== src/Connection/Tasks/Schedules.antt =====
-- What `Works` means for the tasks of `Connection::init` of ingest/src/connection.rs under a scheduler.
use project_lightspeed.Base.{ℕ, suc, ◌<◌, ◌≡◌, ◌≢◌, ◌⊎◌, inl, inr, sym, ap, ◌∙◌, arith}
use project_lightspeed.Connection.Tasks.{Server, System, reading, Turn, take_turn, run}

module _ (server : Server) where
  -- After some polls of the schedule the state is `t`, and before, nothing was read from the client.
  pub record Comes (schedule : ℕ → Turn server) (s t : System server) : Type 0 where
    pub polls : ℕ
    pub there : run server schedule polls s ≡ t
    pub unread : (i : ℕ) → i < polls → (run server schedule i s).frame_task ≢ reading

  lt_succ_cases : (i n : ℕ) → i < suc n → (i < n) ⊎ (i ≡ n)
  lt_succ_cases i n h = ground arith

  module _ (schedule : ℕ → Turn server) (s : System server) where
    -- One more poll, in a state in which the frame task is not reading.
    abbrev extended :
        {t : System server}
        → (c : Comes schedule s t) → t.frame_task ≢ reading
        → {u : System server} → take_turn server (schedule c.polls) t ≡ u
        → Comes schedule s u
    extended {t} c ne e = record {
      polls = suc c.polls;
      there = ap (take_turn server (schedule c.polls)) c.there ∙ e;
      unread = λ i h. elim (lt_succ_cases i c.polls h) [
        | inl less ↦ c.unread i less
        | inr same ↦ λ r. ne (sym (ap (λ (v : System server). v.frame_task) (at_end i same)) ∙ r)
      ];
    }
      where
        at_end : (i : ℕ) → i ≡ c.polls → run server schedule i s ≡ t
        at_end i same = ap (λ j. run server schedule j s) same ∙ c.there
