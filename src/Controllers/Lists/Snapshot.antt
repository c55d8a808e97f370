-- ===== src/Controllers/Lists/Snapshot.antt =====
-- What `RTControllerListWrapper` promises: one list of controllers that is replaced as a whole, and a
-- realtime thread that works on the list as it was when it looked.
use ros2_control.Base.{ℕ, ◌+◌, ◌≡◌, ◌⊎◌, Option, none, some, List}
use ros2_control.Controllers.Lists.{Event}

-- What the holder of the lock is at: it waits for its draft, edits it, or has made it the current
-- list and waits until the realtime thread has seen it.
pub data Phase : Type 0 where
  resting waiting drafting settling : Phase

pub record Snapshot (A : Type 0) : Type 0 where
  -- the list that the realtime thread takes up next
  pub current : List A
  -- the other list, the draft of whoever edits
  pub spare : List A
  -- the list that the realtime thread works on
  pub in_use : Option (List A)
  pub phase : Phase
  -- how often a switch was reported
  pub reported : ℕ

module _ {A : Type 0} where
  abbrev pub ask_in : Phase → Snapshot A → Snapshot A
  ask_in Phase.resting v = record v { phase = Phase.waiting }
  ask_in _ v = v

  abbrev pub go_on_in : Phase → Snapshot A → Snapshot A
  go_on_in Phase.waiting v = record v { phase = Phase.drafting }
  go_on_in Phase.settling v = record v { phase = Phase.resting; reported = v.reported + 1 }
  go_on_in _ v = v

  abbrev pub replace_in : Phase → Snapshot A → Snapshot A
  replace_in Phase.drafting v = record v {
    current = v.spare;
    spare = v.current;
    phase = Phase.settling;
  }
  replace_in _ v = v

  abbrev pub edit_in : Phase → List A → Snapshot A → Snapshot A
  edit_in Phase.drafting l v = record v { spare = l }
  edit_in _ l v = v

  -- What an event does to the one list.
  abbrev pub after : Event A → Snapshot A → Snapshot A
  after Event.reader_loads v = record v { in_use = some v.current }
  after Event.reader_stores v = v
  after Event.writer_asks v = ask_in v.phase v
  after Event.writer_looks v = go_on_in v.phase v
  after Event.writer_stops v = record v { phase = Phase.resting }
  after Event.writer_switches v = replace_in v.phase v
  after (Event.writer_edits l) v = edit_in v.phase l v

  -- The realtime thread works on the current list, or on none.
  abbrev pub IsCaughtUp : Snapshot A → Type 0
  IsCaughtUp v = (v.in_use ≡ none) ⊎ (v.in_use ≡ some v.current)

  -- Only a look at the loop's condition has one.
  abbrev pub MayAct : Event A → Snapshot A → Type 0
  MayAct Event.writer_looks v = IsCaughtUp v
  MayAct _ v = Unit {0}

-- An event has its effect, and the loops end only where the realtime thread has caught up; until then
-- a look changes nothing.
pub data Step {A : Type 0} (e : Event A) (v w : Snapshot A) : Type 0 where
  acts : MayAct e v → w ≡ after e v → Step e v w
  waits : e ≡ Event.writer_looks → w ≡ v → Step e v w
