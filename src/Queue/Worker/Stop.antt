-- ===== src/Queue/Worker/Stop.antt =====
-- Run and Stop of pkg/queue/worker.go: stopRequested and fetchCancel, and the fetch context of the
-- Run that goes on. A worker runs one Run at a time, and Stop comes from other goroutines.
use laravel_queue_go.Prelude.{
  ℕ, suc, ◌≡◌, refl, ◌∙◌, subst, Bool, true, false, ◌||◌, Option, none, some, ◌==◌, arith,
}
use laravel_queue_go.Queue.Worker.{Worker, World, fire}
use laravel_queue_go.Queue.Worker.Loop.{Turn, FetchResult, fetch_job, stopping_event}

-- Where Run is: not called, before its critical section, after it with alreadyStopped, in its loop.
pub data Phase : Type 0 where
  idle entering looping : Phase
  entered : Bool → Phase

-- `current` numbers the fetch contexts; `fetch_cancel` is the one whose cancel the field holds, and
-- `cancelled` says whether the current one is done.
pub record Control : Type 0 where
  pub stop_requested : Bool
  pub fetch_cancel : Option ℕ
  pub current : ℕ
  pub phase : Phase
  pub cancelled : Bool

abbrev pub new_control : Control
new_control = record {
  stop_requested = false;
  fetch_cancel = none;
  current = 0;
  phase = idle;
  cancelled = false;
}

-- Whether a call of the field's function cancels the current context.
abbrev pub reaches : Option ℕ → ℕ → Bool
reaches none n = false
reaches (some m) n = m == n

-- Stop, in its critical section.
abbrev pub stop : Control → Control
stop c = record c {
  stop_requested = true;
  cancelled = c.cancelled || reaches c.fetch_cancel c.current;
}

-- The statements of Run: context.WithCancel, the critical section, the cancel of a worker that was
-- stopped before, and the deferred cancel.
abbrev pub begin_run : Control → Control
begin_run c = record c { current = suc c.current; phase = entering; cancelled = false }

abbrev pub enter_run : Control → Control
enter_run c = record c { fetch_cancel = some c.current; phase = entered c.stop_requested }

abbrev pub start_loop : Bool → Control → Control
start_loop already_stopped c = record c {
  phase = looping;
  cancelled = c.cancelled || already_stopped;
}

abbrev pub end_run : Control → Control
end_run c = record c { phase = idle; cancelled = true }

-- `parent_done` is the end of the context that Run was given.
pub data Step : Control → Control → Type 0 where
  stopped : (c : Control) → Step c (stop c)
  begun : (c : Control) → c.phase ≡ idle → Step c (begin_run c)
  in_section : (c : Control) → c.phase ≡ entering → Step c (enter_run c)
  loop_started : (c : Control) (b : Bool) → c.phase ≡ entered b → Step c (start_loop b c)
  ended : (c : Control) → c.phase ≡ looping → Step c (end_run c)
  parent_done : (c : Control) → Step c (record c { cancelled = true })

pub data Reachable : Control → Type 0 where
  initial : Reachable new_control
  step : {c d : Control} → Reachable c → Step c d → Reachable d

-- A request to stop is in the current context, or on its way there.
abbrev Obeys : Phase → Bool → Bool → Option ℕ → ℕ → Type 0
Obeys idle requested cancelled field current = Unit
Obeys entering requested cancelled field current = Unit
Obeys (entered b) requested cancelled field current =
    (reaches field current ≡ true) × (requested ≡ true → (cancelled || b) ≡ true)
Obeys looping requested cancelled field current =
    (reaches field current ≡ true) × (requested ≡ true → cancelled ≡ true)

abbrev IsObeyed : Control → Type 0
IsObeyed c = Obeys c.phase c.stop_requested c.cancelled c.fetch_cancel c.current

or_true : (a : Bool) → (a || true) ≡ true
or_true true = refl
or_true false = refl

stop-Obeys :
    (p : Phase) (r k : Bool) (f : Option ℕ) (n : ℕ)
    → Obeys p r k f n
    → Obeys p true (k || reaches f n) f n
stop-Obeys idle r k f n h = tt
stop-Obeys entering r k f n h = tt
stop-Obeys (entered b) r k f n (h, g) = (h, λ e. rw (h, or_true k) refl)
stop-Obeys looping r k f n (h, g) = (h, λ e. rw h (or_true k))

parent-Obeys :
    (p : Phase) (r k : Bool) (f : Option ℕ) (n : ℕ) → Obeys p r k f n → Obeys p r true f n
parent-Obeys idle r k f n h = tt
parent-Obeys entering r k f n h = tt
parent-Obeys (entered b) r k f n (h, g) = (h, λ e. refl)
parent-Obeys looping r k f n (h, g) = (h, λ e. refl)

loop-Obeys :
    (p : Phase) (b r k : Bool) (f : Option ℕ) (n : ℕ)
    → p ≡ entered b
    → Obeys p r k f n
    → Obeys looping r (k || b) f n
loop-Obeys p b r k f n e h = subst (λ q. Obeys q r k f n) e h

same : (n : ℕ) → (n == n) ≡ true
same n = ground arith

Step-IsObeyed : (c d : Control) → Step c d → IsObeyed c → IsObeyed d
Step-IsObeyed _ _ (stopped c) h =
    stop-Obeys c.phase c.stop_requested c.cancelled c.fetch_cancel c.current h
Step-IsObeyed _ _ (begun c e) h = tt
Step-IsObeyed _ _ (in_section c e) h = (same c.current, λ r. rw r (or_true c.cancelled))
Step-IsObeyed _ _ (loop_started c b e) h =
    loop-Obeys c.phase b c.stop_requested c.cancelled c.fetch_cancel c.current e h
Step-IsObeyed _ _ (ended c e) h = tt
Step-IsObeyed _ _ (parent_done c) h =
    parent-Obeys c.phase c.stop_requested c.cancelled c.fetch_cancel c.current h

Reachable-IsObeyed : (c : Control) → Reachable c → IsObeyed c
Reachable-IsObeyed _ initial = tt
Reachable-IsObeyed d (step {c} r s) = Step-IsObeyed c d s (Reachable-IsObeyed c r)

looping-cancelled :
    (p : Phase) (r k : Bool) (f : Option ℕ) (n : ℕ)
    → Obeys p r k f n
    → p ≡ looping
    → r ≡ true
    → k ≡ true
looping-cancelled p r k f n h e s = (subst (λ q. Obeys q r k f n) e h).1 s

-- Whatever the order of the calls of Stop, from before the first Run on, and of the statements of
-- the Runs that follow each other: once Stop was called, a round of the loop that starts then takes
-- no job from the driver, fires WorkerStopping and ends the loop.
pub Stop-fetch_job :
    {S : Type 0} (w : Worker S) (t : Turn) (n : ℕ) (world : World S) (c : Control)
    → Reachable c
    → c.phase ≡ looping
    → c.stop_requested ≡ true
    → t.stopped ≡ c.cancelled
    → fetch_job w t n world ≡ (FetchResult.stop, fire stopping_event world)
unfolding fetch_job
Stop-fetch_job w t n world c r p s e =
    let done : t.stopped ≡ true =
      e
      ∙ looping-cancelled c.phase c.stop_requested c.cancelled c.fetch_cancel c.current
          (Reachable-IsObeyed c r) p s in
    rw done refl
