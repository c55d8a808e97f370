-- ===== src/Controllers/Lists/Refinement.antt =====
-- The two lists and their shared indices behave as one list that is replaced as a whole.
use ros2_control.Base.{
  ℕ, zero, suc, ◌≡◌, refl, subst, Bool-cases, Option, none, some, inl, inr, List, arith,
}
use ros2_control.Controllers.Lists
use ros2_control.Controllers.Lists.{Reader, Writer, Event, get_other_list}
use ros2_control.Controllers.Lists.Exclusion.{
  IsInStep, ReaderFits, WriterFits, later, later-IsInStep, after_first_cycle,
}
use ros2_control.Controllers.Lists.Snapshot.{
  Phase, Snapshot, Step, IsCaughtUp, ask_in, replace_in, edit_in,
}

abbrev pub phase_of : Writer → Phase
phase_of Writer.idle = Phase.resting
phase_of (Writer.awaits i) = Phase.waiting
phase_of (Writer.edits i) = Phase.drafting
phase_of (Writer.switches i) = Phase.settling

module _ {A : Type 0} where
  abbrev pub pick : List A → List A → ℕ → List A
  pick first second zero = first
  pick first second (suc i) = second

  abbrev pub in_use_of : List A → List A → Reader → Option (List A)
  in_use_of first second Reader.resting = none
  in_use_of first second (Reader.loaded i) = some (pick first second i)
  in_use_of first second (Reader.uses i) = some (pick first second i)

  abbrev pub view : Lists.Lists A → Snapshot A
  view s = record {
    current = pick s.first s.second s.updated_controllers_index;
    spare = pick s.second s.first s.updated_controllers_index;
    in_use = in_use_of s.first s.second s.reader;
    phase = phase_of s.writer;
    reported = s.switch_callbacks;
  }

  store-view : (r : Reader) (s : Lists.Lists A) → s.reader ≡ r → view (Lists.store r s) ≡ view s
  unfolding Lists.store
  store-view Reader.resting s e = refl
  store-view (Reader.loaded i) s e = ground arith
  store-view (Reader.uses i) s e = refl

  ask-view :
      (w : Writer) (s : Lists.Lists A)
      → s.writer ≡ w
      → view (Lists.get_unused_list w s) ≡ ask_in (phase_of w) (view s)
  unfolding Lists.get_unused_list
  ask-view Writer.idle s e = refl
  ask-view (Writer.awaits i) s e = refl
  ask-view (Writer.edits i) s e = refl
  ask-view (Writer.switches i) s e = refl

  module _ (s : Lists.Lists A) (h : IsInStep s) where
    caught_up :
        (r : Reader) → s.reader ≡ r → h.used ≡ s.updated_controllers_index → IsCaughtUp (view s)
    caught_up Reader.resting e u = inl (rw e refl)
    caught_up (Reader.loaded i) e u =
        let at = subst (ReaderFits h.used s.updated_controllers_index) e h.reader in
        inr (ground (arith, at))
    caught_up (Reader.uses i) e u =
        let at = subst (ReaderFits h.used s.updated_controllers_index) e h.reader in
        inr (ground (arith, at))

    look-Step :
        (w : Writer)
        → s.writer ≡ w
        → Step Event.writer_looks (view s) (view (Lists.wait_until_rt_not_using w s))
    unfolding Lists.wait_until_rt_not_using get_other_list
    look-Step (Writer.awaits i) e =
        elim (Bool-cases (Lists.is_using s.used_by_realtime_controllers_index i)) [
          | inl u ↦ rw u (Step.waits refl refl)
          | inr u ↦
              let at : WriterFits h.used s.updated_controllers_index (Writer.awaits i) =
                subst (WriterFits h.used s.updated_controllers_index) e h.writer in
              let same : h.used ≡ s.updated_controllers_index =
                ground (arith, at, u, h.stored, h.used_bound, h.updated_bound) in
              rw u (Step.acts (caught_up s.reader refl same) (rw e refl))
        ]
    look-Step (Writer.switches i) e =
        elim (Bool-cases (Lists.is_using s.used_by_realtime_controllers_index i)) [
          | inl u ↦ rw u (Step.waits refl refl)
          | inr u ↦
              let at : WriterFits h.used s.updated_controllers_index (Writer.switches i) =
                subst (WriterFits h.used s.updated_controllers_index) e h.writer in
              let same : h.used ≡ s.updated_controllers_index =
                ground (arith, at, u, h.stored, h.used_bound, h.updated_bound) in
              rw u (Step.acts (caught_up s.reader refl same) (rw e refl))
        ]
    look-Step Writer.idle e = Step.waits refl refl
    look-Step (Writer.edits i) e = Step.waits refl refl

    switch-view :
        (w : Writer)
        → s.writer ≡ w
        → view (Lists.switch_updated_list w s) ≡ replace_in (phase_of w) (view s)
    unfolding Lists.switch_updated_list get_other_list
    switch-view (Writer.edits i) e = ground (arith, h.updated_bound)
    switch-view Writer.idle e = refl
    switch-view (Writer.awaits i) e = refl
    switch-view (Writer.switches i) e = refl

    edit-view :
        (w : Writer) (l : List A)
        → s.writer ≡ w
        → view (Lists.edit w l s) ≡ edit_in (phase_of w) l (view s)
    unfolding Lists.edit get_other_list
    edit-view (Writer.edits zero) l e =
        ground (arith, h.reader, h.writer, h.used_bound, h.updated_bound)
    edit-view (Writer.edits (suc i)) l e =
        ground (arith, h.reader, h.writer, h.used_bound, h.updated_bound)
    edit-view Writer.idle l e = refl
    edit-view (Writer.awaits i) l e = refl
    edit-view (Writer.switches i) l e = refl

    step-Step : (e : Event A) → Step e (view s) (view (Lists.step e s))
    unfolding Lists.step Lists.load
    step-Step Event.reader_loads = Step.acts tt refl
    step-Step Event.reader_stores = Step.acts tt (store-view s.reader s refl)
    step-Step Event.writer_asks = Step.acts tt (ask-view s.writer s refl)
    step-Step Event.writer_looks = look-Step s.writer refl
    step-Step Event.writer_stops = Step.acts tt refl
    step-Step Event.writer_switches = Step.acts tt (switch-view s.writer refl)
    step-Step (Event.writer_edits l) = Step.acts tt (edit-view s.writer l refl)

  -- The two lists and their indices refine one list that is replaced as a whole. After the realtime
  -- thread's first cycle that is the first list, in use; and however the accesses of the two threads
  -- interleave from there, each access does to the one list what its event says: the realtime thread
  -- takes up the current list, an edit changes only the draft, a switch makes the draft the current
  -- list, and a look ends a wait only when the realtime thread works on the current list or on none,
  -- and changes nothing otherwise.
  pub step_refines :
      (first second : List A)
      → (view (after_first_cycle first second) ≡ record {
        current = first;
        spare = second;
        in_use = some first;
        phase = Phase.resting;
        reported = 0;
      })
        × ((es : List (Event A)) (e : Event A)
            → Step e (view (later first second es)) (view (Lists.step e (later first second es))))
  step_refines first second =
      (refl, λ es e. step-Step (later first second es) (later-IsInStep first second es) e)
