-- ===== src/Middleware/Pipeline.antt =====
-- pkg/middleware/pipeline.go. An action works on a state W and comes to an error or to none; a
-- middleware turns the action `next` into one around it.
use laravel_queue_go.Prelude.{◌≡◌, refl, sym, ap, ◌∙◌, Option, List, [], ◌∷◌, ◌++◌}

abbrev pub Action : Type 0 → Type 0 → Type 0
Action E W = W → Option E × W

abbrev pub Middleware : Type 0 → Type 0 → Type 0
Middleware E W = Action E W → Action E W

module _ {E W : Type 0} where
  -- The index of `execute` is how many entries of the slice are gone.
  unfoldable pub execute : List (Middleware E W) → Action E W → Action E W
  execute [] handler = handler
  execute (m ∷ ms) handler = m (execute ms handler)

  unfoldable pub then_run : List (Middleware E W) → Action E W → Action E W
  unfolding execute
  then_run [] handler = handler
  then_run (m ∷ ms) handler = execute (m ∷ ms) handler

  unfoldable pub use_all : List (Middleware E W) → List (Middleware E W) → List (Middleware E W)
  use_all pipeline ms = pipeline ++ ms

  execute-append :
      (ms ns : List (Middleware E W)) (h : Action E W)
      → execute (ms ++ ns) h ≡ execute ms (execute ns h)
  unfolding execute
  execute-append [] ns h = refl
  execute-append (m ∷ ms) ns h = λ i. m (execute-append ms ns h i)

  then_run-execute : (ms : List (Middleware E W)) (h : Action E W) → then_run ms h ≡ execute ms h
  unfolding then_run
  then_run-execute [] h = refl
  then_run-execute (m ∷ ms) h = refl

  -- Middleware that Use adds runs inside what is there: the pipeline of both is the old pipeline
  -- around the pipeline of the new ones, around the handler.
  pub then_run-use_all :
      (ms ns : List (Middleware E W)) (h : Action E W)
      → then_run (use_all ms ns) h ≡ then_run ms (then_run ns h)
  unfolding use_all
  then_run-use_all ms ns h =
      then_run-execute (ms ++ ns) h
      ∙ execute-append ms ns h
      ∙ ap (execute ms) (sym (then_run-execute ns h))
      ∙ sym (then_run-execute ms (then_run ns h))
