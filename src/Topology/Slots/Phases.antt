-- ===== src/Topology/Slots/Phases.antt =====
-- The transitions of the slots: what changes, what is counted, and what a restore undoes.
use sparse_branch_machine.Base.{
  inl, inr, ℕ, ◌+◌, ◌≡◌, refl, ap, ◌∙◌, sym, arith, Bool, Bool-cases, if◌then◌else◌, List, [], ◌∷◌,
  map,
}
use sparse_branch_machine.Topology.Slots.{
  GpafSlotPhase, GpafSlots, slot_probe, slot_active, slot_quarantined, slot_recoverable,
  slot_erased, is_active_slot, is_retirable_slot, is_restorable_slot, change_loop,
  quarantine_gpaf_slots, recoverably_retire_gpaf_slots, restore_gpaf_slots,
}

-- Each phase after the three operations.
abbrev pub quarantined : GpafSlotPhase → GpafSlotPhase
quarantined slot_erased = slot_erased
quarantined slot_active = slot_quarantined
quarantined slot_probe = slot_probe
quarantined slot_quarantined = slot_quarantined
quarantined slot_recoverable = slot_recoverable

abbrev pub retired : GpafSlotPhase → GpafSlotPhase
retired slot_erased = slot_erased
retired slot_active = slot_recoverable
retired slot_quarantined = slot_recoverable
retired slot_recoverable = slot_recoverable
retired slot_probe = slot_probe

abbrev pub restored : GpafSlotPhase → GpafSlotPhase
restored slot_erased = slot_erased
restored slot_quarantined = slot_active
restored slot_recoverable = slot_active
restored slot_active = slot_active
restored slot_probe = slot_probe

abbrev pub on_phase : (GpafSlotPhase → GpafSlotPhase) → ℕ × GpafSlotPhase → ℕ × GpafSlotPhase
on_phase f (key, phase) = (key, f phase)

abbrev pub counted : (GpafSlotPhase → Bool) → List (ℕ × GpafSlotPhase) → ℕ
counted test [] = 0
counted test ((key, phase) ∷ rest) = (if test phase then 1 else 0) + counted test rest

change_loop-map :
    (test : GpafSlotPhase → Bool) (target : GpafSlotPhase) (f : GpafSlotPhase → GpafSlotPhase)
    → ((phase : GpafSlotPhase) → (if test phase then target else phase) ≡ f phase)
    → (slots : List (ℕ × GpafSlotPhase))
    → (change_loop test target slots).0 ≡ map (on_phase f) slots
unfolding change_loop
change_loop-map test target f h [] = refl
change_loop-map test target f h ((key, phase) ∷ rest) = elim (Bool-cases (test phase)) [
  | inl passes ↦
      let e : target ≡ f phase = rw passes at (h phase) in
      rw (passes, change_loop-map test target f h rest, e)
  | inr fails ↦
      let e : phase ≡ f phase = rw fails at (h phase) in
      rw (fails, change_loop-map test target f h rest, sym e)
]

change_loop-counted :
    (test : GpafSlotPhase → Bool) (target : GpafSlotPhase) (slots : List (ℕ × GpafSlotPhase))
    → (change_loop test target slots).1 ≡ counted test slots
unfolding change_loop
change_loop-counted test target [] = refl
change_loop-counted test target ((key, phase) ∷ rest) = elim (Bool-cases (test phase)) [
  | inl passes ↦ rw passes (omega (arith, change_loop-counted test target rest))
  | inr fails ↦ rw fails (omega (arith, change_loop-counted test target rest))
]

-- The three operations send every slot's phase on as `quarantined`, `retired` and `restored` say,
-- and return the number of slots that were active, active or quarantined, and quarantined or
-- retired.
pub gpaf_slots-phases :
    (s : GpafSlots)
    → (((quarantine_gpaf_slots s).0.phases ≡ map (on_phase quarantined) s.phases)
        × ((quarantine_gpaf_slots s).1 ≡ counted is_active_slot s.phases))
      × (((recoverably_retire_gpaf_slots s).0.phases ≡ map (on_phase retired) s.phases)
          × ((recoverably_retire_gpaf_slots s).1 ≡ counted is_retirable_slot s.phases))
      × (((restore_gpaf_slots s).0.phases ≡ map (on_phase restored) s.phases)
          × ((restore_gpaf_slots s).1 ≡ counted is_restorable_slot s.phases))
unfolding quarantine_gpaf_slots recoverably_retire_gpaf_slots restore_gpaf_slots
gpaf_slots-phases s = (
  (
    change_loop-map is_active_slot slot_quarantined quarantined by_active s.phases,
    change_loop-counted is_active_slot slot_quarantined s.phases,
  ),
  (
    change_loop-map is_retirable_slot slot_recoverable retired by_retirable s.phases,
    change_loop-counted is_retirable_slot slot_recoverable s.phases,
  ),
  (
    change_loop-map is_restorable_slot slot_active restored by_restorable s.phases,
    change_loop-counted is_restorable_slot slot_active s.phases,
  ),
)
  where
    by_active :
        (phase : GpafSlotPhase)
        → (if is_active_slot phase then slot_quarantined else phase) ≡ quarantined phase
    by_active slot_probe = refl
    by_active slot_erased = refl
    by_active slot_active = refl
    by_active slot_quarantined = refl
    by_active slot_recoverable = refl

    by_retirable :
        (phase : GpafSlotPhase)
        → (if is_retirable_slot phase then slot_recoverable else phase) ≡ retired phase
    by_retirable slot_probe = refl
    by_retirable slot_erased = refl
    by_retirable slot_active = refl
    by_retirable slot_quarantined = refl
    by_retirable slot_recoverable = refl

    by_restorable :
        (phase : GpafSlotPhase)
        → (if is_restorable_slot phase then slot_active else phase) ≡ restored phase
    by_restorable slot_probe = refl
    by_restorable slot_erased = refl
    by_restorable slot_active = refl
    by_restorable slot_quarantined = refl
    by_restorable slot_recoverable = refl

map_twice :
    (f g h : GpafSlotPhase → GpafSlotPhase)
    → ((phase : GpafSlotPhase) → g (f phase) ≡ h phase)
    → (slots : List (ℕ × GpafSlotPhase))
    → map (on_phase g) (map (on_phase f) slots) ≡ map (on_phase h) slots
map_twice f g h e [] = refl
map_twice f g h e ((key, phase) ∷ rest) = rw (e phase, map_twice f g h e rest)

-- A restore undoes a quarantine, and a recoverable retirement even one after a quarantine: the
-- slots are as after a restore alone.
pub restore_gpaf_slots-undoes :
    (s : GpafSlots)
    → ((restore_gpaf_slots (quarantine_gpaf_slots s).0).0.phases ≡ (restore_gpaf_slots s).0.phases)
      × ((restore_gpaf_slots (recoverably_retire_gpaf_slots (quarantine_gpaf_slots s).0).0).0.phases
          ≡ (restore_gpaf_slots s).0.phases)
restore_gpaf_slots-undoes s =
    let q = (quarantine_gpaf_slots s).0 in
    let r = (recoverably_retire_gpaf_slots q).0 in
    let after_quarantine = (gpaf_slots-phases s).0.0 in
    let after_both : r.phases ≡ map (on_phase retired) s.phases =
      (gpaf_slots-phases q).1.0
      ∙ ap (map (on_phase retired)) after_quarantine
      ∙ map_twice quarantined retired retired once s.phases in
    let alone = sym ((gpaf_slots-phases s).2.0) in
    (
      (gpaf_slots-phases q).2.0
          ∙ ap (map (on_phase restored)) after_quarantine
          ∙ map_twice quarantined restored restored undone s.phases
          ∙ alone,
      (gpaf_slots-phases r).2.0
          ∙ ap (map (on_phase restored)) after_both
          ∙ map_twice retired restored restored undone_retired s.phases
          ∙ alone,
    )
  where
    once : (phase : GpafSlotPhase) → retired (quarantined phase) ≡ retired phase
    once slot_probe = refl
    once slot_erased = refl
    once slot_active = refl
    once slot_quarantined = refl
    once slot_recoverable = refl

    undone : (phase : GpafSlotPhase) → restored (quarantined phase) ≡ restored phase
    undone slot_probe = refl
    undone slot_erased = refl
    undone slot_active = refl
    undone slot_quarantined = refl
    undone slot_recoverable = refl

    undone_retired : (phase : GpafSlotPhase) → restored (retired phase) ≡ restored phase
    undone_retired slot_probe = refl
    undone_retired slot_erased = refl
    undone_retired slot_active = refl
    undone_retired slot_quarantined = refl
    undone_retired slot_recoverable = refl
