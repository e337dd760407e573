-- ===== src/Lifecycle/Closure/Ends.antt =====
-- modules/machine_topology.cpp: the loop of `restore_dependency_closure` ends, and changes no channel
-- but by restoring it.
use sparse_branch_machine.Base.{
  ℕ, zero, suc, ◌+◌, ◌-◌, ◌*◌, ◌≤◌, ◌<◌, ◌≡◌, ◌≢◌, refl, sym, ap, arith, ◌∙◌, Bool, true, false,
  ◌||◌, leb, ◌==◌, ==_iff, subst, Bool-cases, inl, inr, if◌then◌else◌, List, [], ◌∷◌, get_or, set,
  replicate, length, length-set, length-replicate, ok, get_or-set_self, get_or-set_ne,
}
use sparse_branch_machine.Lifecycle.{ValueOps, Machine, LifecycleConfig}
use sparse_branch_machine.Lifecycle.Closure.{
  Closure, push_dependents, after_first, visit_channel, close_round, close_loop, close_fuel, start,
  restore_dependency_closure,
}
use sparse_branch_machine.Lifecycle.Closure.Restores.{
  OnlyRestores, OnlyRestores-refl, OnlyRestores-trans, IsSettled, IsSettled-on,
  restore_channel-OnlyRestores, restore_channel-IsSettled,
}
use sparse_branch_machine.Lifecycle.Retire.{restore_channel}
use sparse_branch_machine.Topology.{ChannelState, channel_enabled}

-- The channels without a mark.
unfoldable pub unmarked : List Bool → ℕ
unmarked [] = 0
unmarked (mark ∷ marks) = let rest = unmarked marks in if mark then rest else rest + 1

unmarked-set :
    (marks : List Bool) (i : ℕ)
    → i < length marks
    → get_or marks i false ≡ false
    → unmarked (set marks i true) + 1 ≡ unmarked marks
unfolding unmarked
unmarked-set [] i h e = absurd (omega arith)
unmarked-set (mark ∷ marks) zero h e = rw e (omega arith)
unmarked-set (mark ∷ marks) (suc i) h e = ground (arith, unmarked-set marks i (omega arith) e)

unmarked-replicate : (n : ℕ) → unmarked (replicate n false) ≡ n
unfolding unmarked
unmarked-replicate zero = refl
unmarked-replicate (suc n) = omega (arith, unmarked-replicate n)

get_or-replicate : (n i : ℕ) → get_or (replicate n false) i false ≡ false
get_or-replicate zero i = refl
get_or-replicate (suc n) zero = refl
get_or-replicate (suc n) (suc i) = get_or-replicate n i

module _ {float double : Type 0} where
  length-push_dependents :
      (current : ℕ) (visited : List Bool) (candidate : ℕ)
      (topology : List (ChannelState float double)) (stack : List ℕ)
      → length (push_dependents current visited candidate topology stack)
        ≤ length topology + length stack
  unfolding push_dependents
  length-push_dependents current visited candidate [] stack = omega arith
  length-push_dependents current visited candidate (state ∷ topology) stack = ground (
    arith,
    length-push_dependents current visited (candidate + 1) topology stack,
    length-push_dependents current visited (candidate + 1) topology (candidate ∷ stack),
  )

  unmarked_measure : ℕ → Closure float double → ℕ
  unmarked_measure size closure = unmarked closure.visited * size + length closure.stack

  -- What holds in every round, of a closure that began with a machine.
  record IsRunning (began : Machine float double) (closure : Closure float double) : Type 0 where
    marks : length closure.visited ≡ length began.topology
    only : OnlyRestores began closure.machine
    settled : (i : ℕ) → get_or closure.visited i false ≡ true → i ≢ 0 → IsSettled i closure.machine

  module _ (ops : ValueOps float double) (config : LifecycleConfig float)
      (began : Machine float double) where
    visit-IsRunning :
        (current : ℕ) (stack : List ℕ) (closure : Closure float double)
        → current < length began.topology
        → IsRunning began closure
        → IsRunning began (visit_channel ops config current stack closure)
    visit-IsRunning current stack closure inside v = record {
      marks = length-set closure.visited current true ∙ v.marks;
      only = OnlyRestores-trans began closure.machine _ v.only step;
      settled = λ i marked n. elim (Bool-cases (current == i)) [
        | inl same ↦
            let at : current ≡ i = (==_iff current i).0 same in
            subst (λ (k : ℕ). IsSettled k next) at
              (restore_channel-IsSettled ops config closure.machine current (ground arith))
        | inr other ↦
            let before : get_or closure.visited i false ≡ true =
              sym (get_or-set_ne closure.visited current i true false (ground arith)) ∙ marked in
            IsSettled-on i closure.machine next step (v.settled i before n)
      ];
    }
      where
        next : Machine float double
        next = (restore_channel ops config closure.machine current).0

        step : OnlyRestores closure.machine next
        step = restore_channel-OnlyRestores ops config closure.machine current

    visit_stack :
        (current : ℕ) (stack : List ℕ) (closure : Closure float double)
        → current < length began.topology
        → IsRunning began closure
        → length (visit_channel ops config current stack closure).stack + 1
          ≤ length began.topology + length stack
    visit_stack current stack closure inside v =
        elim (Bool-cases (channel_enabled next.topology current)) [
          | inl on ↦ rw on (
              omega (
                arith,
                size,
                shorter next.topology,
                length-push_dependents current (set closure.visited current true) 1
                    (after_first next.topology) stack,
              ))
          | inr off ↦ rw off (omega arith)
        ]
      where
        next : Machine float double
        next = (restore_channel ops config closure.machine current).0

        size : length next.topology ≡ length began.topology
        size = (restore_channel-OnlyRestores ops config closure.machine current).size ∙ v.only.size

        shorter :
            (topology : List (ChannelState float double))
            → length (after_first topology) ≡ length topology - 1
        shorter [] = refl
        shorter (state ∷ topology) = omega arith

    visit_measure :
        (current : ℕ) (stack : List ℕ) (closure : Closure float double)
        → current < length began.topology
        → get_or closure.visited current false ≡ false
        → IsRunning began closure
        → unmarked_measure (length began.topology) (visit_channel ops config current stack closure)
          < unmarked closure.visited * length began.topology + suc (length stack)
    unfolding unmarked_measure
    visit_measure current stack closure inside fresh v =
        let size = length began.topology in
        let fewer : unmarked (set closure.visited current true) + 1 ≡ unmarked closure.visited =
          unmarked-set closure.visited current (omega (arith, v.marks)) fresh in
        let scaled : (unmarked (set closure.visited current true) + 1) * size
            ≡ unmarked closure.visited * size =
          ap (λ (k : ℕ). k * size) fewer in
        omega (arith, scaled, visit_stack current stack closure inside v)

    -- One round of the loop.
    round-IsRunning :
        (current : ℕ) (stack : List ℕ) (closure : Closure float double)
        → IsRunning began closure
        → let next = close_round ops config current stack closure in
          IsRunning began next
          × (unmarked_measure (length began.topology) next
              < unmarked closure.visited * length began.topology + suc (length stack))
          × ((i : ℕ) → get_or closure.visited i false ≡ true → get_or next.visited i false ≡ true)
    unfolding close_round unmarked_measure
    round-IsRunning current stack closure v =
        elim (Bool-cases
          (leb (length closure.machine.topology) current || get_or closure.visited current false)) [
            | inl skipped ↦ rw skipped (
              record { marks = v.marks; only = v.only; settled = v.settled },
              omega arith,
              λ i h. h,
            )
            | inr taken ↦
                let inside : current < length began.topology = ground (arith, v.only.size) in
                let fresh : get_or closure.visited current false ≡ false = ground arith in
                rw taken (
                  visit-IsRunning current stack closure inside v,
                  visit_measure current stack closure inside fresh v,
                  λ i h. elim (Bool-cases (current == i)) [
                    | inl same ↦
                        let at : current ≡ i = (==_iff current i).0 same in
                        rw (← at) (
                          get_or-set_self closure.visited current true false
                            (omega (arith, inside, v.marks)))
                    | inr other ↦
                        get_or-set_ne closure.visited current i true false (ground arith) ∙ h
                  ],
                )
          ]

    close_loop_total :
        (fuel : ℕ) (stack : List ℕ) (closure : Closure float double)
        → IsRunning began closure
        → unmarked closure.visited * length began.topology + length stack ≤ fuel
        → (final : Closure float double) × (close_loop ops config fuel stack closure ≡ ok final)
          × IsRunning began final
          × ((i : ℕ) → get_or closure.visited i false ≡ true → get_or final.visited i false ≡ true)
    unfolding close_loop unmarked_measure
    close_loop_total zero [] closure v h = (closure, refl, v, λ i m. m)
    close_loop_total zero (current ∷ stack) closure v h = absurd (omega arith)
    close_loop_total (suc fuel) [] closure v h = (closure, refl, v, λ i m. m)
    close_loop_total (suc fuel) (current ∷ stack) closure v h =
        let (running, less, kept) = round-IsRunning current stack closure v in
        let next = close_round ops config current stack closure in
        let (final, eq, ended, kept') =
          close_loop_total fuel next.stack next running (omega (arith, less, h)) in
        (final, eq, ended, λ i m. kept' i (kept i m))

  module _ (ops : ValueOps float double) (config : LifecycleConfig float)
      (machine : Machine float double) (channel : ℕ) where
    begin-IsRunning : IsRunning machine (start ops config machine channel)
    begin-IsRunning = record {
      marks = length-replicate (length machine.topology) false;
      only = OnlyRestores-refl machine;
      settled = λ i marked n.
          let unmarked_yet : get_or (replicate (length machine.topology) false) i false ≡ false =
            get_or-replicate (length machine.topology) i in
          absurd (cc);
    }

    -- The first round marks the channel.
    first_round :
        channel < length machine.topology
        → get_or
            (close_round ops config channel [] (start ops config machine channel)).visited
            channel
            false
          ≡ true
    unfolding close_round
    first_round inside =
        let unvisited : get_or (replicate (length machine.topology) false) channel false ≡ false =
          get_or-replicate (length machine.topology) channel in
        let test : (leb (length machine.topology) channel
              || get_or (replicate (length machine.topology) false) channel false)
            ≡ false =
          ground arith in
        rw test (
          get_or-set_self (replicate (length machine.topology) false) channel true false
            (omega (arith, inside, length-replicate (length machine.topology) false)))

    -- For every channel but the first, `restore_dependency_closure` ends with enough rounds. Each
    -- channel is then as before or, where it was quarantined or recoverably retired and is not the
    -- first, restored; and the channel asked for is in neither of those two phases.
    pub restore_dependency_closure_total :
        channel ≢ 0
        → channel < length machine.topology
        → (after : Machine float double) × (count : ℕ) × (restore_dependency_closure ops config
              machine channel
            ≡ ok (after, count))
          × OnlyRestores machine after
          × IsSettled channel after
    unfolding restore_dependency_closure unmarked_measure
    restore_dependency_closure_total n inside =
        let began = start ops config machine channel in
        let next = close_round ops config channel [] began in
        let (running, less, kept) =
          round-IsRunning ops config machine channel [] began begin-IsRunning in
        let (final, eq, ended, marks) =
          close_loop_total ops config machine (length machine.topology * length machine.topology)
            next.stack next running (omega (arith, less', less)) in
        (
          final.machine,
          final.restored,
          rw (test, fuel, eq) refl,
          ended.only,
          ended.settled channel (marks channel (first_round inside)) n,
        )
      where
        test : (leb (length machine.topology) channel || channel == 0) ≡ false
        test = ground arith

        fuel :
            close_fuel (length machine.topology)
            ≡ suc (length machine.topology * length machine.topology)
        fuel = omega arith

        less' :
            unmarked (replicate (length machine.topology) false) * length machine.topology
            ≡ length machine.topology * length machine.topology
        less' =
            ap (λ (k : ℕ). k * length machine.topology)
              (unmarked-replicate (length machine.topology))
