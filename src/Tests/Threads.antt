-- ===== src/Tests/Threads.antt =====
-- The realtime thread and the loading of a controller, which edits both lists.
use ros2_control.Base.{◌≡◌, refl, inl, some, none, List, [], ◌∷◌, ◌++◌, Name}
use ros2_control.Controllers.Lists
use ros2_control.Controllers.Lists.{Reader, Writer, Event, get_other_list}
use ros2_control.Controllers.Lists.Exclusion
use ros2_control.Controllers.Lists.Refinement
use ros2_control.Controllers.Lists.Refinement.{view}
use ros2_control.Controllers.Lists.Snapshot.{Phase, Step}
use ros2_control.Controllers.Lists.Exclusion.{after_first_cycle, later, updated}

abbrev old : List Name
old = "broadcaster" ∷ []

abbrev new : List Name
new = "broadcaster" ∷ "trajectory" ∷ []

abbrev asking : List (Event Name)
asking = Event.writer_asks ∷ []

abbrev editing : List (Event Name)
editing = Event.writer_asks ∷ Event.writer_looks ∷ []

abbrev switching : List (Event Name)
switching = editing ++ Event.writer_edits new ∷ Event.writer_switches ∷ []

abbrev taken_up : List (Event Name)
taken_up = switching ++ Event.reader_loads ∷ Event.reader_stores ∷ []

step-list_at_example :
    Lists.list_at 0 (Lists.step (Event.writer_edits new) (later old [] editing))
    ≡ Lists.list_at 0 (later old [] editing)
unfolding Lists.run Lists.step
step-list_at_example = Exclusion.step-list_at old [] editing (Event.writer_edits new) 0 (inl refl)

updated-switched_example : (updated old [] switching).writer ≡ Writer.idle
unfolding Lists.run Lists.step
updated-switched_example = Exclusion.updated-switched old [] switching {former = 0} refl

updated-edits_example : (updated old [] asking).writer ≡ Writer.edits 1
unfolding Lists.run Lists.step Lists.get_unused_list get_other_list
updated-edits_example = Exclusion.updated-edits old [] asking {i = 1} refl

step_refines_example :
    (view (after_first_cycle old []) ≡ record {
      current = old;
      spare = [];
      in_use = some old;
      phase = Phase.resting;
      reported = 0;
    })
    × ((es : List (Event Name)) (e : Event Name)
        → Step e (view (later old [] es)) (view (Lists.step e (later old [] es))))
step_refines_example = Refinement.step_refines old []

-- The draft that is finished is the list that the realtime thread takes up.
draft_is_taken_up :
    ((view (later old [] switching)).current ≡ new)
    × ((view (later old [] taken_up)).in_use ≡ some new)
unfolding Lists.run Lists.step
draft_is_taken_up = (refl, refl)

-- Before the first cycle nothing is stored, so no loop waits: both threads get at the same list if
-- the realtime thread is interrupted between its read and its write.
abbrev before_first_cycle : Lists.Lists Name
before_first_cycle = record (after_first_cycle old []) {
  used_by_realtime_controllers_index = none;
  reader = Reader.resting;
}

abbrev interrupted_update : List (Event Name)
interrupted_update =
    Event.reader_loads ∷ switching
    ++ Event.writer_looks ∷ Event.writer_asks ∷ Event.writer_looks ∷ Event.reader_stores ∷ []

first_cycle_race :
    ((Lists.run interrupted_update before_first_cycle).reader ≡ Reader.uses 0)
    × ((Lists.run interrupted_update before_first_cycle).writer ≡ Writer.edits 0)
unfolding Lists.run Lists.step
first_cycle_race = (refl, refl)
