-- ===== src/Controllers/Lists/Exclusion.antt =====
-- The realtime thread and the holder of the lock never work on the same list.
use ros2_control.Base.{
  ℕ, suc, Bool-cases, subst, sym, ◌+◌, ◌<◌, ◌≡◌, refl, ◌⊎◌, inl, inr, some, List, [], ◌∷◌, arith,
}
use ros2_control.Controllers.Lists
use ros2_control.Controllers.Lists.{Reader, Writer, Event, get_other_list}

abbrev pub ReaderFits : ℕ → ℕ → Reader → Type 0
ReaderFits used updated Reader.resting = Unit {0}
ReaderFits used updated (Reader.loaded index) = (index ≡ used) ⊎ (index ≡ updated)
ReaderFits used updated (Reader.uses index) = index ≡ used

abbrev pub WriterFits : ℕ → ℕ → Writer → Type 0
WriterFits used updated Writer.idle = Unit {0}
WriterFits used updated (Writer.awaits index) = index ≡ get_other_list updated
WriterFits used updated (Writer.edits index) = (index ≡ get_other_list updated) × (used ≡ updated)
WriterFits used updated (Writer.switches former) = former ≡ get_other_list updated

-- The realtime thread has stored an index, each thread is where the indices say, and whoever edits a
-- list does so while the realtime thread is at the updated one.
pub record IsInStep {A : Type 0} (s : Lists.Lists A) : Type 0 where
  pub used : ℕ
  pub stored : s.used_by_realtime_controllers_index ≡ some used
  pub used_bound : used < 2
  pub updated_bound : s.updated_controllers_index < 2
  pub reader : ReaderFits used s.updated_controllers_index s.reader
  pub writer : WriterFits used s.updated_controllers_index s.writer

WriterFits-store :
    (used updated index : ℕ) (w : Writer)
    → (index ≡ used) ⊎ (index ≡ updated)
    → WriterFits used updated w
    → WriterFits index updated w
WriterFits-store used updated index Writer.idle r h = tt
WriterFits-store used updated index (Writer.awaits i) r h = h
WriterFits-store used updated index (Writer.edits i) r (at, same) =
    (at, elim r [ inl e ↦ ground arith | inr e ↦ e ])
WriterFits-store used updated index (Writer.switches i) r h = h

-- The switch of a list whose editor saw the realtime thread at the updated one.
ReaderFits-switch :
    (used updated : ℕ) (r : Reader)
    → used ≡ updated
    → ReaderFits used updated r
    → ReaderFits used (get_other_list updated) r
ReaderFits-switch used updated Reader.resting e h = tt
ReaderFits-switch used updated (Reader.loaded i) e h = inl (ground arith)
ReaderFits-switch used updated (Reader.uses i) e h = h

other-involutive : (i : ℕ) → i < 2 → get_other_list (get_other_list i) ≡ i
unfolding get_other_list
other-involutive i h = omega arith

module _ {A : Type 0} (s : Lists.Lists A) (h : IsInStep s) where
  -- The same indices and the same reader.
  same_indices-IsInStep :
      (t : Lists.Lists A)
      → t.used_by_realtime_controllers_index ≡ s.used_by_realtime_controllers_index
      → t.updated_controllers_index ≡ s.updated_controllers_index
      → t.reader ≡ s.reader
      → WriterFits h.used s.updated_controllers_index t.writer
      → IsInStep t
  same_indices-IsInStep t u v r w = record {
    used = h.used;
    stored = rw u h.stored;
    used_bound = h.used_bound;
    updated_bound = rw v h.updated_bound;
    reader = rw (v, r) h.reader;
    writer = rw v w;
  }

  store-IsInStep : (r : Reader) → s.reader ≡ r → IsInStep (Lists.store r s)
  unfolding Lists.store
  store-IsInStep (Reader.loaded index) e =
      let at : ReaderFits h.used s.updated_controllers_index (Reader.loaded index) =
        subst (ReaderFits h.used s.updated_controllers_index) e h.reader in
      record {
        used = index;
        stored = refl;
        used_bound = ground (arith, at, h.used_bound, h.updated_bound);
        updated_bound = h.updated_bound;
        reader = refl;
        writer = WriterFits-store h.used s.updated_controllers_index index s.writer at h.writer;
      }
  store-IsInStep Reader.resting e = h
  store-IsInStep (Reader.uses index) e = h

  ask-IsInStep : (w : Writer) → s.writer ≡ w → IsInStep (Lists.get_unused_list w s)
  unfolding Lists.get_unused_list get_other_list
  ask-IsInStep Writer.idle e = same_indices-IsInStep _ refl refl refl refl
  ask-IsInStep (Writer.awaits i) e = h
  ask-IsInStep (Writer.edits i) e = h
  ask-IsInStep (Writer.switches i) e = h

  look-IsInStep : (w : Writer) → s.writer ≡ w → IsInStep (Lists.wait_until_rt_not_using w s)
  unfolding Lists.wait_until_rt_not_using get_other_list
  look-IsInStep (Writer.awaits i) e =
      let at : WriterFits h.used s.updated_controllers_index (Writer.awaits i) =
        subst (WriterFits h.used s.updated_controllers_index) e h.writer in
      elim (Bool-cases (Lists.is_using s.used_by_realtime_controllers_index i)) [
        | inl u ↦ rw u h
        | inr u ↦ rw u (
            same_indices-IsInStep (record s { writer = Writer.edits i }) refl refl refl
              (at, ground (arith, h.stored, h.used_bound, h.updated_bound)))
      ]
  look-IsInStep (Writer.switches i) e =
      elim (Bool-cases (Lists.is_using s.used_by_realtime_controllers_index i)) [
        | inl u ↦ rw u h
        | inr u ↦ rw u (
            same_indices-IsInStep
              (record s { writer = Writer.idle; switch_callbacks = s.switch_callbacks + 1 }) refl
              refl refl tt)
      ]
  look-IsInStep Writer.idle e = h
  look-IsInStep (Writer.edits i) e = h

  switch-IsInStep : (w : Writer) → s.writer ≡ w → IsInStep (Lists.switch_updated_list w s)
  unfolding Lists.switch_updated_list
  switch-IsInStep (Writer.edits i) e =
      let at : WriterFits h.used s.updated_controllers_index (Writer.edits i) =
        subst (WriterFits h.used s.updated_controllers_index) e h.writer in
      record {
        used = h.used;
        stored = h.stored;
        used_bound = h.used_bound;
        updated_bound = unfold get_other_list in omega arith;
        reader = ReaderFits-switch h.used s.updated_controllers_index s.reader (at.1) h.reader;
        writer = sym (other-involutive s.updated_controllers_index h.updated_bound);
      }
  switch-IsInStep Writer.idle e = h
  switch-IsInStep (Writer.awaits i) e = h
  switch-IsInStep (Writer.switches i) e = h

  edit-IsInStep : (w : Writer) (l : List A) → IsInStep (Lists.edit w l s)
  unfolding Lists.edit
  edit-IsInStep (Writer.edits ℕ.zero) l = same_indices-IsInStep _ refl refl refl h.writer
  edit-IsInStep (Writer.edits (suc i)) l = same_indices-IsInStep _ refl refl refl h.writer
  edit-IsInStep Writer.idle l = h
  edit-IsInStep (Writer.awaits i) l = h
  edit-IsInStep (Writer.switches i) l = h

  load-IsInStep : IsInStep (Lists.load s)
  unfolding Lists.load
  load-IsInStep = record {
    used = h.used;
    stored = h.stored;
    used_bound = h.used_bound;
    updated_bound = h.updated_bound;
    reader = inr refl;
    writer = h.writer;
  }

  pub step-IsInStep : (e : Event A) → IsInStep (Lists.step e s)
  unfolding Lists.step
  step-IsInStep Event.reader_loads = load-IsInStep
  step-IsInStep Event.reader_stores = store-IsInStep s.reader refl
  step-IsInStep Event.writer_asks = ask-IsInStep s.writer refl
  step-IsInStep Event.writer_looks = look-IsInStep s.writer refl
  step-IsInStep Event.writer_stops = same_indices-IsInStep _ refl refl refl tt
  step-IsInStep Event.writer_switches = switch-IsInStep s.writer refl
  step-IsInStep (Event.writer_edits l) = edit-IsInStep s.writer l

  -- The index that the realtime thread has at hand is the updated one, as long as a list is edited.
  abbrev Holds : ℕ → Type 0
  Holds i = (s.reader ≡ Reader.uses i) ⊎ (s.reader ≡ Reader.loaded i)

  held : (i j : ℕ) → Holds i → s.writer ≡ Writer.edits j → i ≡ get_other_list j
  unfolding get_other_list
  held i j r w = ground (arith, h.reader, h.writer, h.used_bound, h.updated_bound)

  edit-list_at :
      (w : Writer) (l : List A) (i : ℕ)
      → s.writer ≡ w
      → Holds i
      → Lists.list_at i (Lists.edit w l s) ≡ Lists.list_at i s
  unfolding Lists.edit get_other_list
  edit-list_at (Writer.edits ℕ.zero) l ℕ.zero e r = ground (arith, held 0 0 r e)
  edit-list_at (Writer.edits ℕ.zero) l (suc i) e r = refl
  edit-list_at (Writer.edits (suc j)) l ℕ.zero e r = refl
  edit-list_at (Writer.edits (suc j)) l (suc i) e r =
      ground (arith, held (suc i) (suc j) r e, h.writer, h.used_bound, h.updated_bound)
  edit-list_at Writer.idle l i e r = refl
  edit-list_at (Writer.awaits j) l i e r = refl
  edit-list_at (Writer.switches j) l i e r = refl

  step-keeps_held :
      (e : Event A) (i : ℕ) → Holds i → Lists.list_at i (Lists.step e s) ≡ Lists.list_at i s
  unfolding Lists.step Lists.load Lists.store Lists.get_unused_list Lists.wait_until_rt_not_using
      Lists.switch_updated_list
  step-keeps_held (Event.writer_edits l) i r = edit-list_at s.writer l i refl r
  step-keeps_held e ℕ.zero r = ground arith
  step-keeps_held e (suc i) r = ground arith

pub run-IsInStep :
    {A : Type 0} (es : List (Event A)) (s : Lists.Lists A) → IsInStep s → IsInStep (Lists.run es s)
unfolding Lists.run
run-IsInStep [] s h = h
run-IsInStep (e ∷ es) s h = run-IsInStep es (Lists.step e s) (step-IsInStep s h e)

-- After the realtime thread's first cycle.
abbrev pub after_first_cycle : {A : Type 0} → List A → List A → Lists.Lists A
after_first_cycle first second = record {
  first = first;
  second = second;
  updated_controllers_index = 0;
  used_by_realtime_controllers_index = some 0;
  switch_callbacks = 0;
  reader = Reader.uses 0;
  writer = Writer.idle;
}

pub after_first_cycle-IsInStep :
    {A : Type 0} (first second : List A) → IsInStep (after_first_cycle first second)
after_first_cycle-IsInStep first second = record {
  used = 0;
  stored = refl;
  used_bound = omega arith;
  updated_bound = omega arith;
  reader = refl;
  writer = tt;
}

module _ {A : Type 0} (first second : List A) (es : List (Event A)) where
  abbrev pub later : Lists.Lists A
  later = Lists.run es (after_first_cycle first second)

  pub later-IsInStep : IsInStep later
  later-IsInStep =
      run-IsInStep es (after_first_cycle first second) (after_first_cycle-IsInStep first second)

  -- However the steps of the two threads interleave after the realtime thread's first cycle, no step
  -- changes the list that the realtime thread works on, nor the one whose index it has read.
  pub step-list_at :
      (e : Event A) (i : ℕ)
      → (later.reader ≡ Reader.uses i) ⊎ (later.reader ≡ Reader.loaded i)
      → Lists.list_at i (Lists.step e later) ≡ Lists.list_at i later
  step-list_at e i r = step-keeps_held later later-IsInStep e i r

  -- When the loop of a switch ends, the realtime thread has taken up the updated list.
  pub switch-updated :
      {former : ℕ}
      → later.writer ≡ Writer.switches former
      → (Lists.step Event.writer_looks later).writer ≡ Writer.idle
      → later.used_by_realtime_controllers_index ≡ some later.updated_controllers_index
  unfolding Lists.step Lists.wait_until_rt_not_using get_other_list
  switch-updated w e =
      let h = later-IsInStep in ground (arith, h.stored, h.used_bound, h.updated_bound, h.writer)

  -- The realtime thread's passage through its update.
  abbrev pub updated : Lists.Lists A
  updated = Lists.run (Event.reader_loads ∷ Event.reader_stores ∷ Event.writer_looks ∷ []) later

  -- The loop of a switch ends at its next look once the realtime thread has passed through its update.
  pub updated-switched :
      {former : ℕ} → later.writer ≡ Writer.switches former → updated.writer ≡ Writer.idle
  unfolding Lists.run Lists.step Lists.load Lists.store Lists.wait_until_rt_not_using get_other_list
  updated-switched w =
      let h = later-IsInStep in ground (arith, h.stored, h.used_bound, h.updated_bound, h.writer)

  -- The loop of whoever waits for the unused list ends at its next look once the realtime thread has
  -- passed through its update, with that list at hand.
  pub updated-edits : {i : ℕ} → later.writer ≡ Writer.awaits i → updated.writer ≡ Writer.edits i
  unfolding Lists.run Lists.step Lists.load Lists.store Lists.wait_until_rt_not_using get_other_list
  updated-edits w =
      let h = later-IsInStep in ground (arith, h.stored, h.used_bound, h.updated_bound, h.writer)
