-- ===== src/Controllers/Lists.antt =====
-- The two lists of controllers (`RTControllerListWrapper`): the realtime thread runs the controllers
-- of one, and whoever holds the lock edits the other and makes it the updated one. A step is a
-- single access to the shared indices or to a list, so that the threads interleave at each of them.
pub mod Exclusion
pub mod Snapshot
pub mod Refinement
use ros2_control.Base.{
  ℕ, ◌+◌, ◌%◌, Bool, true, false, Option, none, some, List, [], ◌∷◌, ◌==◌, if◌then◌else◌,
}

-- The realtime thread in `update_and_get_used_by_rt_list`: it has read the updated index but not yet
-- stored it, or it is at work on the list of an index.
pub data Reader : Type 0 where
  resting : Reader
  loaded uses : ℕ → Reader

-- The holder of the lock: in the loop of `get_unused_list` for an index, with the list of an index
-- at hand, or in the loop of `switch_updated_list` for the former index.
pub data Writer : Type 0 where
  idle : Writer
  awaits edits switches : ℕ → Writer

-- An index of -1 is `none`.
pub record Lists (A : Type 0) : Type 0 where
  pub first : List A
  pub second : List A
  pub updated_controllers_index : ℕ
  pub used_by_realtime_controllers_index : Option ℕ
  -- calls of `on_switch_callback_`
  pub switch_callbacks : ℕ
  pub reader : Reader
  pub writer : Writer

pub data Event (A : Type 0) : Type 0 where
  reader_loads reader_stores : Event A
  writer_asks writer_looks writer_stops writer_switches : Event A
  writer_edits : List A → Event A

unfoldable pub get_other_list : ℕ → ℕ
get_other_list index = (index + 1) % 2

-- The condition of the loop of `wait_until_rt_not_using`.
abbrev pub is_using : Option ℕ → ℕ → Bool
is_using none index = false
is_using (some used) index = used == index

module _ {A : Type 0} where
  abbrev pub list_at : ℕ → Lists A → List A
  list_at ℕ.zero s = s.first
  list_at _ s = s.second

  abbrev put : ℕ → List A → Lists A → Lists A
  put ℕ.zero l s = record s { first = l }
  put _ l s = record s { second = l }

  -- `used_by_realtime_controllers_index_ = updated_controllers_index_`: the read
  unfoldable pub load : Lists A → Lists A
  load s = record s { reader = Reader.loaded s.updated_controllers_index }

  -- and the write
  unfoldable pub store : Reader → Lists A → Lists A
  store (Reader.loaded index) s = record s {
    used_by_realtime_controllers_index = some index;
    reader = Reader.uses index;
  }
  store _ s = s

  unfoldable pub get_unused_list : Writer → Lists A → Lists A
  unfolding get_other_list
  get_unused_list Writer.idle s = record s {
    writer = Writer.awaits (get_other_list s.updated_controllers_index);
  }
  get_unused_list _ s = s

  -- One look at the loop's condition, in either method.
  unfoldable pub wait_until_rt_not_using : Writer → Lists A → Lists A
  wait_until_rt_not_using (Writer.awaits index) s =
      if is_using s.used_by_realtime_controllers_index index
      then s
      else record s { writer = Writer.edits index }
  wait_until_rt_not_using (Writer.switches former) s =
      if is_using s.used_by_realtime_controllers_index former
      then s
      else record s { writer = Writer.idle; switch_callbacks = s.switch_callbacks + 1 }
  wait_until_rt_not_using _ s = s

  unfoldable pub switch_updated_list : Writer → Lists A → Lists A
  unfolding get_other_list
  switch_updated_list (Writer.edits index) s = record s {
    updated_controllers_index = get_other_list s.updated_controllers_index;
    writer = Writer.switches s.updated_controllers_index;
  }
  switch_updated_list _ s = s

  unfoldable pub edit : Writer → List A → Lists A → Lists A
  edit (Writer.edits index) l s = put index l s
  edit _ l s = s

  -- The loops throw when ROS is shut down, and a list that was asked for need not be switched to.
  -- An event that is not possible leaves all as it is.
  unfoldable pub step : Event A → Lists A → Lists A
  unfolding load store get_unused_list wait_until_rt_not_using switch_updated_list edit
  step Event.reader_loads s = load s
  step Event.reader_stores s = store s.reader s
  step Event.writer_asks s = get_unused_list s.writer s
  step Event.writer_looks s = wait_until_rt_not_using s.writer s
  step Event.writer_stops s = record s { writer = Writer.idle }
  step Event.writer_switches s = switch_updated_list s.writer s
  step (Event.writer_edits l) s = edit s.writer l s

  unfoldable pub run : List (Event A) → Lists A → Lists A
  run [] s = s
  run (e ∷ es) s = run es (step e s)
