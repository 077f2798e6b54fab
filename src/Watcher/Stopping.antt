-- ===== src/Watcher/Stopping.antt =====
-- What `FSWatcher::stop` of src/FSWatcher.cpp waits for.
use hawck.Prelude.{
  ℕ, zero, suc, ◌≡◌, refl, sym, ap, ◌∙◌, Bool, true, false, not, ◌&&◌, List, [], ◌∷◌, arith,
}
use hawck.Watcher.Rounds.{RunState, stopped_state, running_state, stopping_state}
use hawck.Watcher.Threads.{
  Place, at_test, in_body, behind, Owner, idle, starting, halting, gave_up, returned, waiting,
  Threads, stop_rounds, is_stopped, Turn, enters, leaves, ends_round, is_told_to_stop, ends, other,
  Step, turns, tests_start, starts, tests_stop, returns_at_once, halts, waits, gives_up, returns,
  goes_on, Reach, begin, next,
}

-- Neither between the two steps of `asyncWatch` nor back from `stop`.
abbrev is_calm : Owner → Bool
is_calm starting = false
is_calm returned = false
is_calm idle = true
is_calm halting = true
is_calm gave_up = true
is_calm (waiting n) = true

abbrev has_asked : Owner → Bool
has_asked gave_up = true
has_asked (waiting n) = true
has_asked idle = false
has_asked starting = false
has_asked halting = false
has_asked returned = false

abbrev is_behind : Place → Bool
is_behind behind = true
is_behind at_test = false
is_behind in_body = false

-- One thread at most; none where `running` says so, and one in the loop where it says so. Only the
-- owner that has asked for a stop can meet a thread that is gone and yet to be stopped.
abbrev fine : RunState → Owner → List Place → Bool
fine stopped_state o [] = true
fine stopped_state o (p ∷ ps) = false
fine running_state o [] = false
fine running_state o (p ∷ []) = not (is_behind p) && is_calm o
fine running_state o (p ∷ q ∷ ps) = false
fine stopping_state o [] = has_asked o
fine stopping_state o (p ∷ []) = is_calm o
fine stopping_state o (p ∷ q ∷ ps) = false

not_empty :
    {r r' : RunState} {ps qs : List Place}
    → Turn r ps r' qs
    → (q : Place) × (rest : List Place) × (ps ≡ q ∷ rest)
not_empty (enters ps) = (at_test, ps, refl)
not_empty (leaves r ps no_run) = (at_test, ps, refl)
not_empty (ends_round r ps) = (in_body, ps, refl)
not_empty (is_told_to_stop r ps) = (in_body, ps, refl)
not_empty (ends r ps) = (behind, ps, refl)
not_empty (other r r' p ps qs t) = (p, ps, refl)

crowded : (r : RunState) (o : Owner) (p q : Place) (ps : List Place) → fine r o (p ∷ q ∷ ps) ≡ false
crowded stopped_state o p q ps = refl
crowded running_state o p q ps = refl
crowded stopping_state o p q ps = refl

Turn-fine :
    (o : Owner) {r r' : RunState} {ps qs : List Place}
    → Turn r ps r' qs
    → fine r o ps ≡ true
    → fine r' o qs ≡ true
Turn-fine o (enters []) h = h
Turn-fine o (enters (p ∷ ps)) h = absurd (cc h)
Turn-fine o (leaves stopped_state ps no_run) h = absurd (cc h)
Turn-fine o (leaves running_state ps no_run) h = absurd (cc no_run)
Turn-fine o (leaves stopping_state [] no_run) h = h
Turn-fine o (leaves stopping_state (p ∷ ps) no_run) h = absurd (cc h)
Turn-fine o (ends_round stopped_state ps) h = absurd (cc h)
Turn-fine o (ends_round running_state []) h = h
Turn-fine o (ends_round running_state (p ∷ ps)) h = absurd (cc h)
Turn-fine o (ends_round stopping_state []) h = h
Turn-fine o (ends_round stopping_state (p ∷ ps)) h = absurd (cc h)
Turn-fine o (is_told_to_stop stopped_state ps) h = absurd (cc h)
Turn-fine o (is_told_to_stop running_state []) h = h
Turn-fine o (is_told_to_stop running_state (p ∷ ps)) h = absurd (cc h)
Turn-fine o (is_told_to_stop stopping_state []) h = h
Turn-fine o (is_told_to_stop stopping_state (p ∷ ps)) h = absurd (cc h)
Turn-fine o (ends stopped_state ps) h = absurd (cc h)
Turn-fine o (ends running_state []) h = absurd (cc h)
Turn-fine o (ends running_state (p ∷ ps)) h = absurd (cc h)
Turn-fine o (ends stopping_state []) h = refl
Turn-fine o (ends stopping_state (p ∷ ps)) h = absurd (cc h)
Turn-fine o (other r r' p ps qs t) h =
    let (q, rest, some_) = not_empty t in
    let few : fine r o (p ∷ q ∷ rest) ≡ true = ap (λ l. fine r o (p ∷ l)) (sym some_) ∙ h in
    absurd (cc (few, crowded r o p q rest))

calmer :
    (r : RunState) (o o' : Owner) (ps : List Place)
    → is_calm o' ≡ true
    → (has_asked o ≡ true → has_asked o' ≡ true)
    → fine r o ps ≡ true
    → fine r o' ps ≡ true
calmer stopped_state o o' [] calm asked h = refl
calmer stopped_state o o' (p ∷ ps) calm asked h = absurd (cc h)
calmer running_state o o' [] calm asked h = absurd (cc h)
calmer running_state o o' (p ∷ []) calm asked h = ground (arith, h, calm)
calmer running_state o o' (p ∷ q ∷ ps) calm asked h = absurd (cc h)
calmer stopping_state o o' [] calm asked h = asked h
calmer stopping_state o o' (p ∷ []) calm asked h = calm
calmer stopping_state o o' (p ∷ q ∷ ps) calm asked h = absurd (cc h)

-- Where a thread is started or has come back from `stop`, `running` says stopped and none watches.
at_rest :
    (r : RunState) (o : Owner) (ps : List Place)
    → is_calm o ≡ false
    → has_asked o ≡ false
    → fine r o ps ≡ true
    → (r ≡ stopped_state) × (ps ≡ [])
at_rest stopped_state o [] calm asked h = (refl, refl)
at_rest stopped_state o (p ∷ ps) calm asked h = absurd (cc h)
at_rest running_state o [] calm asked h = absurd (cc h)
at_rest running_state o (p ∷ []) calm asked h = absurd (ground (arith, h, calm))
at_rest running_state o (p ∷ q ∷ ps) calm asked h = absurd (cc h)
at_rest stopping_state o [] calm asked h = absurd (cc (h, asked))
at_rest stopping_state o (p ∷ []) calm asked h = absurd (cc (h, calm))
at_rest stopping_state o (p ∷ q ∷ ps) calm asked h = absurd (cc h)

halted :
    (r : RunState) (n : ℕ) (ps : List Place)
    → fine r halting ps ≡ true
    → fine stopping_state (waiting n) ps ≡ true
halted stopped_state n [] h = refl
halted stopped_state n (p ∷ ps) h = absurd (cc h)
halted running_state n [] h = absurd (cc h)
halted running_state n (p ∷ []) h = refl
halted running_state n (p ∷ q ∷ ps) h = absurd (cc h)
halted stopping_state n [] h = refl
halted stopping_state n (p ∷ []) h = refl
halted stopping_state n (p ∷ q ∷ ps) h = absurd (cc h)

stopped_fine :
    (r : RunState) (o o' : Owner) (ps : List Place)
    → is_stopped r ≡ true
    → fine r o ps ≡ true
    → fine r o' ps ≡ true
stopped_fine stopped_state o o' [] stop h = refl
stopped_fine stopped_state o o' (p ∷ ps) stop h = absurd (cc h)
stopped_fine running_state o o' ps stop h = absurd (cc stop)
stopped_fine stopping_state o o' ps stop h = absurd (cc stop)

module _ (may_start : RunState → Bool) (timeout_sec : ℕ) where
  Step-fine :
      {s t : Threads}
      → may_start stopping_state ≡ false
      → Step may_start timeout_sec s t
      → fine s.running s.owner s.watching ≡ true
      → fine t.running t.owner t.watching ≡ true
  Step-fine patient (turns {o = o} t) h = Turn-fine o t h
  Step-fine patient (tests_start stopped_state ps may no_run) h =
      stopped_fine stopped_state idle starting ps refl h
  Step-fine patient (tests_start running_state ps may no_run) h = absurd (cc no_run)
  Step-fine patient (tests_start stopping_state ps may no_run) h = absurd (cc (patient, may))
  Step-fine patient (starts r ps) h =
      ap (λ l. fine running_state idle (at_test ∷ l)) (at_rest r starting ps refl refl h).1
  Step-fine patient (tests_stop r ps no_stop) h =
      calmer r idle halting ps refl (λ e. absurd (cc e)) h
  Step-fine patient (returns_at_once r ps stop) h = stopped_fine r idle returned ps stop h
  Step-fine patient (halts r ps) h = halted r (stop_rounds timeout_sec) ps h
  Step-fine patient (waits r n ps no_stop) h =
      calmer r (waiting (suc n)) (waiting n) ps refl (λ e. refl) h
  Step-fine patient (gives_up r ps no_stop) h =
      calmer r (waiting zero) gave_up ps refl (λ e. refl) h
  Step-fine patient (returns r n ps stop) h = stopped_fine r (waiting n) returned ps stop h
  Step-fine patient (goes_on r ps) h = calmer r returned idle ps refl (λ e. absurd (cc e)) h

  Reach-fine :
      {s : Threads}
      → may_start stopping_state ≡ false
      → Reach may_start timeout_sec s
      → fine s.running s.owner s.watching ≡ true
  Reach-fine patient begin = refl
  Reach-fine patient (next reach step) = Step-fine patient step (Reach-fine patient reach)

  -- If `asyncWatch` is never called while a watch is being stopped, then in any interleaving, whenever
  -- `stop` returns without an exception, no thread is in `watch`, so that the watcher can be deleted.
  pub stopped_quiet :
      {s : Threads}
      → may_start stopping_state ≡ false
      → Reach may_start timeout_sec s
      → s.owner ≡ returned
      → (s.running ≡ stopped_state) × (s.watching ≡ [])
  stopped_quiet {s} patient reach back =
      at_rest s.running s.owner s.watching (rw back refl) (rw back refl) (Reach-fine patient reach)
