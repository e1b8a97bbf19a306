-- ===== src/Api/Manifests/Failures.antt =====
-- Where the application of a manifest stops.
use podman_swarm.Base.{
  ℕ, suc, ◌+◌, ◌≡◌, ◌≢◌, ◌⊎◌, inl, inr, refl, ap, subst, ◌∙◌, Option, none, some, List, [], ◌∷◌,
  ◌++◌, length, Result, ok, err, arith,
}
use podman_swarm.Base.Text.{Text}
use podman_swarm.Base.Map.{Map}
use podman_swarm.Kube.{Object}
use podman_swarm.Types.{Node}
use podman_swarm.Storage.{Codec}
use podman_swarm.Parser as Parser
use podman_swarm.Parser.{parse_manifest}
use podman_swarm.Api.State.{State, Step, done, failed, hangs}
use podman_swarm.Api.Manifests.{
  Inputs, Answer, applied, unreadable, unparsed, rejected, no_answer, apply_object, apply_objects,
  apply_manifest,
}

-- The answer to a request whose loop ends with this step.
abbrev pub answer_of : Step → Answer
answer_of done = applied
answer_of (failed e) = rejected e
answer_of hangs = no_answer

-- The handlers of the objects, the first of which is the i-th, one after the other, all of which are
-- done: from which state they lead to which.
pub data Applies (c : Codec) (local : Text) (nodes : Map Node) (inputs : ℕ → Inputs)
    : ℕ → List Object → State → State → Type 0 where
  all_applied : {i : ℕ} {s : State} → Applies c local nodes inputs i [] s s
  object_applied :
      {i : ℕ} {o : Object} {objects : List Object} {s t u : State}
      → apply_object c local nodes (inputs i) o s ≡ (t, done)
      → Applies c local nodes inputs (suc i) objects t u
      → Applies c local nodes inputs i (o ∷ objects) s u

module _ (c : Codec) (local : Text) (nodes : Map Node) (inputs : ℕ → Inputs) where
  -- Every object was applied, and success is the answer.
  abbrev pub AppliesAll : ℕ → List Object → State → State × Answer → Type 0
  AppliesAll i objects s r =
      (t : State) × Applies c local nodes inputs i objects s t × (r ≡ (t, applied))

  -- The objects up to one that fails: those before it were all applied, it was applied as far as its
  -- own handler got, and the rest was not touched.
  pub record StopsAt (i : ℕ) (objects : List Object) (s : State) (r : State × Answer) : Type 0 where
    pub before : List Object
    pub object : Object
    pub after : List Object
    pub parts : objects ≡ before ++ (object ∷ after)
    pub reached : State
    pub passed : Applies c local nodes inputs i before s reached
    pub last : State
    pub step : Step
    stopped : apply_object c local nodes (inputs (i + length before)) object reached ≡ (last, step)
    not_done : step ≢ done
    pub result : r ≡ (last, answer_of step)

  module _ (i : ℕ) (o : Object) (objects : List Object) (s s' : State) where
    first_done :
        apply_object c local nodes (inputs i) o s ≡ (s', done)
        → apply_objects c local nodes inputs i (o ∷ objects) s
          ≡ apply_objects c local nodes inputs (suc i) objects s'
    unfolding apply_objects
    first_done e = ground arith

    first_stops :
        (step : Step)
        → step ≢ done
        → apply_object c local nodes (inputs i) o s ≡ (s', step)
        → StopsAt i (o ∷ objects) s (apply_objects c local nodes inputs i (o ∷ objects) s)
    unfolding apply_objects
    first_stops step stops e = record {
      before = [];
      object = o;
      after = objects;
      parts = refl;
      reached = s;
      passed = all_applied;
      last = s';
      step = step;
      stopped = subst (λ k. apply_object c local nodes (inputs k) o s ≡ (s', step)) (omega arith) e;
      not_done = stops;
      result = by_step step stops e;
    }
      where
        by_step :
            (step : Step)
            → step ≢ done
            → apply_object c local nodes (inputs i) o s ≡ (s', step)
            → apply_objects c local nodes inputs i (o ∷ objects) s ≡ (s', answer_of step)
        by_step done stops e = absurd (stops refl)
        by_step (failed x) stops e = ground arith
        by_step hangs stops e = ground arith

    StopsAt-cons :
        apply_object c local nodes (inputs i) o s ≡ (s', done)
        → StopsAt (suc i) objects s' (apply_objects c local nodes inputs (suc i) objects s')
        → StopsAt i (o ∷ objects) s (apply_objects c local nodes inputs i (o ∷ objects) s)
    unfolding apply_objects
    StopsAt-cons e h = record {
      before = o ∷ h.before;
      object = h.object;
      after = h.after;
      parts = ap (λ r. o ∷ r) h.parts;
      reached = h.reached;
      passed = object_applied e h.passed;
      last = h.last;
      step = h.step;
      stopped =
          subst (λ k. apply_object c local nodes (inputs k) h.object h.reached ≡ (h.last, h.step))
            (omega arith) h.stopped;
      not_done = h.not_done;
      result = first_done e ∙ h.result;
    }

  apply_objects_lem :
      (i : ℕ) (objects : List Object) (s : State)
      → AppliesAll i objects s (apply_objects c local nodes inputs i objects s)
        ⊎ StopsAt i objects s (apply_objects c local nodes inputs i objects s)
  unfolding apply_objects
  apply_objects_lem i [] s = inl (s, all_applied, refl)
  apply_objects_lem i (o ∷ objects) s =
      by_first (apply_object c local nodes (inputs i) o s) refl
        (λ s'. apply_objects_lem (suc i) objects s')
    where
      by_first :
          (r : State × Step)
          → apply_object c local nodes (inputs i) o s ≡ r
          → ((s' : State)
              → AppliesAll
                  (suc i)
                  objects
                  s'
                  (apply_objects c local nodes inputs (suc i) objects s')
                ⊎ StopsAt
                    (suc i)
                    objects
                    s'
                    (apply_objects c local nodes inputs (suc i) objects s'))
          → AppliesAll i (o ∷ objects) s (apply_objects c local nodes inputs i (o ∷ objects) s)
            ⊎ StopsAt i (o ∷ objects) s (apply_objects c local nodes inputs i (o ∷ objects) s)
      by_first (s', done) e rest = elim (rest s') [
        | inl (t, steps, result) ↦
            inl (t, object_applied e steps, first_done i o objects s s' e ∙ result)
        | inr h ↦ inr (StopsAt-cons i o objects s s' e h)
      ]
      by_first (s', failed x) e rest = inr (first_stops i o objects s s' (failed x) (λ h. cc) e)
      by_first (s', hangs) e rest = inr (first_stops i o objects s s' hangs (λ h. cc) e)

  -- The body could not be read, or not parsed, or its objects were applied, all of them or up to one.
  abbrev pub Treated : (Text → Option Object) → Option Text → State → State × Answer → Type 0
  Treated decode body s r =
      ((body ≡ none) × (r ≡ (s, unreadable)))
      ⊎ (((b : Text) × (e : Parser.Error) × (body ≡ some b)
            × (parse_manifest decode b ≡ err e)
            × (r ≡ (s, unparsed)))
          ⊎ ((b : Text) × (objects : List Object) × (body ≡ some b)
              × (parse_manifest decode b ≡ ok objects)
              × (AppliesAll 0 objects s r ⊎ StopsAt 0 objects s r)))

  -- A body that cannot be read or parsed changes nothing, and is answered as such. The objects of any
  -- other are applied in order: all of them, each in the state that the one before it left, and the
  -- answer is success with the state that the last one left; or until one fails, panics or waits for
  -- ever: the answer is then about that object, those before it stay applied, it stays applied as far
  -- as its handler got, and those behind it are not looked at.
  pub apply_manifest-Treated :
      (decode : Text → Option Object) (body : Option Text) (s : State)
      → Treated decode body s (apply_manifest c local nodes decode inputs body s)
  unfolding apply_manifest
  apply_manifest-Treated decode none s = inl (refl, refl)
  apply_manifest-Treated decode (some b) s = by_objects (parse_manifest decode b) refl
    where
      by_objects :
          (p : Result Parser.Error (List Object))
          → parse_manifest decode b ≡ p
          → Treated decode (some b) s (apply_manifest c local nodes decode inputs (some b) s)
      by_objects (err e) at = inr (inl (b, e, refl, at, ground arith))
      by_objects (ok objects) at =
          let same : apply_objects c local nodes inputs 0 objects s
              ≡ apply_manifest c local nodes decode inputs (some b) s =
            ground arith in
          inr (
            inr (
              b,
              objects,
              refl,
              at,
              subst (λ r. AppliesAll 0 objects s r ⊎ StopsAt 0 objects s r) same
                  (apply_objects_lem 0 objects s),
            ))
