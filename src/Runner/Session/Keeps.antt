-- ===== src/Runner/Session/Keeps.antt =====
-- Rules for what holds after a session: `Runs m P Q E` says that from a world with P, the step m ends
-- with Q if it returns, and with E if it raises.
use parallel_reduction_bench.Prelude.{
  ◌≡◌, refl, ◌⊎◌, inl, inr, Bool, true, false, String, List, [], ◌∷◌, if◌then◌else◌,
}
use parallel_reduction_bench.Prelude.Result.{Result, ok, raise, Kind}
use parallel_reduction_bench.Runner.Session.{
  TaskRow, RepetitionRow, WorkerEvent, Command, MeterOp, World, M, and_then, ◌>>=◌, pure, fail,
  lift, when, take_outcome, external, take_read, read_worker_event, send_command, meter, handled,
  catch, leave, finally,
}

abbrev pub Post :
    {A : Type 0} → (A → World → Type 0) → (Kind → World → Type 0) → Result A × World → Type 0
Post Q E (ok a, w) = Q a w
Post Q E (raise kind, w) = E kind w

pub record Runs {A : Type 0} (m : M A) (P : World → Type 0) (Q : A → World → Type 0)
    (E : Kind → World → Type 0) : Type 0 where
  pub run : (w : World) → P w → Post Q E (m w)

abbrev pub Keeps : {A : Type 0} → (World → Type 0) → M A → Type 0
Keeps I m = Runs m I (λ _. I) (λ _. I)

-- What does not look at the inputs, the telemetry and the energy meters.
pub record IsCalm (I : World → Type 0) : Type 0 where
  pub outcomes : (w : World) (o : List (Result (Unit {0}))) → I w → I (record w { outcomes = o })
  pub reads : (w : World) (r : List (Result WorkerEvent)) → I w → I (record w { reads = r })
  pub telemetry : (w : World) (t : List String) → I w → I (record w { telemetry = t })
  pub meters : (w : World) (ms : List MeterOp) → I w → I (record w { meters = ms })
  pub started : (w : World) → I w → I (record w { energy_started = true })
  pub stopped : (w : World) → I w → I (record w { energy_stopped = true })

-- What is said of the commands and the rows alone.
pub files-IsCalm :
    (P : List Command → List TaskRow → List RepetitionRow → Type 0)
    → IsCalm (λ w. P w.sent w.task_rows w.repetition_rows)
files-IsCalm P = record {
  outcomes = λ w o h. h;
  reads = λ w r h. h;
  telemetry = λ w t h. h;
  meters = λ w ms h. h;
  started = λ w h. h;
  stopped = λ w h. h;
}

map_sum : {A B C D : Type 0} → (A → C) → (B → D) → A ⊎ B → C ⊎ D
map_sum f g (inl a) = inl (f a)
map_sum f g (inr b) = inr (g b)

pub either-IsCalm : {I J : World → Type 0} → IsCalm I → IsCalm J → IsCalm (λ w. I w ⊎ J w)
either-IsCalm i j = record {
  outcomes = λ w o. map_sum (i.outcomes w o) (j.outcomes w o);
  reads = λ w r. map_sum (i.reads w r) (j.reads w r);
  telemetry = λ w t. map_sum (i.telemetry w t) (j.telemetry w t);
  meters = λ w ms. map_sum (i.meters w ms) (j.meters w ms);
  started = λ w. map_sum (i.started w) (j.started w);
  stopped = λ w. map_sum (i.stopped w) (j.stopped w);
}

-- The rules on the outcome of a step, which the rules on steps apply.
module _ {A B : Type 0} (Q : A → World → Type 0) (R : B → World → Type 0)
    (E : Kind → World → Type 0) where
  bind-Post :
      (f : A → M B) (r : Result A × World)
      → ((a : A) → Runs (f a) (Q a) R E)
      → Post Q E r
      → Post R E (and_then r f)
  bind-Post f (ok a, w) k h = (k a).run w h
  bind-Post f (raise kind, w) k h = h

module _ {A : Type 0} (Q R : A → World → Type 0) (E F : Kind → World → Type 0) where
  weaken-Post :
      (r : Result A × World)
      → ((a : A) (w : World) → Q a w → R a w)
      → ((kind : Kind) (w : World) → E kind w → F kind w)
      → Post Q E r
      → Post R F r
  weaken-Post (ok a, w) q e h = q a w h
  weaken-Post (raise kind, w) q e h = e kind w h

  finally-Post :
      (cleanup : M (Unit {0})) (r : Result A × World)
      → ((a : A) → Runs cleanup (Q a) (λ _. R a) F)
      → ((kind : Kind) → Runs cleanup (E kind) (λ _. F kind) F)
      → Post Q E r
      → Post R F (leave r.0 (cleanup r.1))
  finally-Post cleanup (ok a, w) q e h = leave_ok (cleanup w) ((q a).run w h)
    where
      leave_ok : (r : Result (Unit {0}) × World) → Post (λ _. R a) F r → Post R F (leave (ok a) r)
      leave_ok (ok _, w) h = h
      leave_ok (raise kind, w) h = h
  finally-Post cleanup (raise kind, w) q e h = leave_raise (cleanup w) ((e kind).run w h)
    where
      leave_raise :
          (r : Result (Unit {0}) × World) → Post (λ _. F kind) F r → Post R F (leave (raise kind) r)
      leave_raise (ok _, w) h = h
      leave_raise (raise k, w) h = h

module _ {A : Type 0} (Q : A → World → Type 0) (E F : Kind → World → Type 0) where
  lift-Post :
      (r : Result A) (w : World)
      → ((a : A) → r ≡ ok a → Q a w)
      → ((kind : Kind) → E kind w)
      → Post Q E (r, w)
  lift-Post (ok a) w q e = q a refl
  lift-Post (raise kind) w q e = e kind

  catch-Post :
      (handler : Kind → M A) (r : Result A × World)
      → ((kind : Kind) → Runs (handler kind) (E kind) Q F)
      → Post Q E r
      → Post Q F (handled r handler)
  catch-Post handler (ok a, w) k h = h
  catch-Post handler (raise kind, w) k h = (k kind).run w h

pub bind :
    {A B : Type 0} {P : World → Type 0} {Q : A → World → Type 0} {R : B → World → Type 0}
    {E : Kind → World → Type 0} {m : M A} {f : A → M B}
    → Runs m P Q E
    → ((a : A) → Runs (f a) (Q a) R E)
    → Runs (m >>= f) P R E
bind {Q} {R} {E} {m} {f} h k = record { run = λ w p. bind-Post Q R E f (m w) k (h.run w p) }

module _ {A : Type 0} {P : World → Type 0} {Q : A → World → Type 0}
    {E : Kind → World → Type 0} where
  pub returns : (a : A) → ((w : World) → P w → Q a w) → Runs (pure a) P Q E
  returns a h = record { run = h }

  pub fails : (kind : Kind) → ((w : World) → P w → E kind w) → Runs (fail {A = A} kind) P Q E
  fails kind h = record { run = h }

  pub lifts :
      (r : Result A)
      → ((a : A) (w : World) → r ≡ ok a → P w → Q a w)
      → ((kind : Kind) (w : World) → P w → E kind w)
      → Runs (lift r) P Q E
  lifts r q e = record {
    run = λ w p. lift-Post Q E E r w (λ a same. q a w same p) (λ kind. e kind w p);
  }

  pub branch :
      (b : Bool) {m n : M A} → Runs m P Q E → Runs n P Q E → Runs (if b then m else n) P Q E
  branch true h k = h
  branch false h k = k

-- A test that raises, with what it says where it passes.
pub checks :
    {P : World → Type 0} {E : Kind → World → Type 0} (b : Bool) (kind : Kind)
    → ((w : World) → P w → E kind w)
    → Runs (if b then pure tt else fail kind) P (λ (_ : Unit {0}) w. (b ≡ true) × P w) E
checks true kind h = record { run = λ w p. (refl, p) }
checks false kind h = record { run = h }

-- The rule of consequence.
pub weaken :
    {A : Type 0} {P P' : World → Type 0} {Q Q' : A → World → Type 0} {E E' : Kind → World → Type 0}
    {m : M A}
    → ((w : World) → P' w → P w)
    → ((a : A) (w : World) → Q a w → Q' a w)
    → ((kind : Kind) (w : World) → E kind w → E' kind w)
    → Runs m P Q E
    → Runs m P' Q' E'
weaken {Q} {Q'} {E} {E'} {m} p q e h = record {
  run = λ w pre. weaken-Post Q Q' E E' (m w) q e (h.run w (p w pre));
}

pub catches :
    {A : Type 0} {P : World → Type 0} {Q : A → World → Type 0} {E F : Kind → World → Type 0}
    {m : M A} {handler : Kind → M A}
    → Runs m P Q E
    → ((kind : Kind) → Runs (handler kind) (E kind) Q F)
    → Runs (catch m handler) P Q F
catches {Q} {E} {F} {m} {handler} h k = record {
  run = λ w p. catch-Post Q E F handler (m w) k (h.run w p);
}

-- A cleanup starts from what holds on either way.
pub ends :
    {A : Type 0} {P : World → Type 0} {Q R : A → World → Type 0} {E F : Kind → World → Type 0}
    {m : M A} {cleanup : M (Unit {0})}
    → Runs m P Q E
    → ((a : A) → Runs cleanup (Q a) (λ _. R a) F)
    → ((kind : Kind) → Runs cleanup (E kind) (λ _. F kind) F)
    → Runs (finally m cleanup) P R F
ends {Q} {R} {E} {F} {m} {cleanup} h q e = record {
  run = λ w p. finally-Post Q R E F cleanup (m w) q e (h.run w p);
}

module _ {I : World → Type 0} (calm : IsCalm I) where
  outcome-Post :
      (os : List (Result (Unit {0}))) (w : World)
      → I w
      → Post (λ (_ : Unit {0}). I) (λ _. I) (take_outcome os w)
  outcome-Post [] w h = h
  outcome-Post (ok _ ∷ os) w h = calm.outcomes w os h
  outcome-Post (raise kind ∷ os) w h = calm.outcomes w os h

  pub external-Keeps : Keeps I external
  unfolding external
  external-Keeps = record { run = λ w h. outcome-Post w.outcomes w h }

  read-Post :
      (rs : List (Result WorkerEvent)) (w : World)
      → I w
      → Post (λ (_ : WorkerEvent). I) (λ _. I) (take_read rs w)
  read-Post [] w h = h
  read-Post (ok event ∷ rs) w h = calm.reads w rs h
  read-Post (raise kind ∷ rs) w h = calm.reads w rs h

  pub read_worker_event-Keeps : Keeps I read_worker_event
  unfolding read_worker_event
  read_worker_event-Keeps = record { run = λ w h. read-Post w.reads w h }

  pub meter-Keeps : (op : MeterOp) → Keeps I (meter op)
  unfolding meter
  meter-Keeps op = record { run = λ w h. external-Keeps.run _ (calm.meters w (op ∷ w.meters) h) }

  pub when-Keeps : (b : Bool) {m : M (Unit {0})} → Keeps I m → Keeps I (when b m)
  when-Keeps true h = h
  when-Keeps false h = returns tt (λ w p. p)

-- A command moves the invariant, whether or not writing it raises.
pub send_command-Runs :
    {I J : World → Type 0} (command : Command)
    → IsCalm J
    → ((w : World) → I w → J (record w { sent = command ∷ w.sent }))
    → Runs (send_command command) I (λ _. J) (λ _. J)
unfolding send_command
send_command-Runs command calm h = record { run = λ w p. (external-Keeps calm).run _ (h w p) }
