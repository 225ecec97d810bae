-- ===== src/Queue/Manager/Sharing.antt =====
-- The middleware of pkg/queue/manager.go and of the workers that it makes, in one array.
use laravel_queue_go.Prelude.{◌+◌, ◌≤◌, ◌≡◌, refl, ap, ◌∙◌, List, [], ◌∷◌, ◌++◌, length, arith}
use laravel_queue_go.Middleware.Pipeline.{Middleware}
use laravel_queue_go.Middleware.Slices.{Slice, Growth, contents}
use laravel_queue_go.Middleware.Slices.Laws.{
  IsValid, append-IsValid, append-IsValid_other, contents-append_other, append-array,
  contents-append_twice,
}
use laravel_queue_go.Queue.Manager.{
  Manager, Store, use_middleware, use_on_worker, worker, as_worker,
}
use laravel_queue_go.Queue.Worker.{HandlerError, Running, WorkerOptions, new_worker}

module _ {S L : Type 0} (g : Growth) where
  -- Any number of calls of Use.
  pub use_each :
      List (List (Middleware HandlerError (Running S)))
      → Manager S
      → Store S L
      → Manager S × Store S L
  use_each [] m st = (m, st)
  use_each (mw ∷ mws) m st = let (m', st') = use_middleware g mw m st in use_each mws m' st'

  -- The worker's slice ends where the manager's ends, or before, if they have one array.
  record IsBehind (t : Slice) (m : Manager S) (st : Store S L) : Type 0 where
    pub manager_valid : IsValid st.arrays m.middleware
    pub worker_valid : IsValid st.arrays t
    pub shorter : t.array ≡ m.middleware.array → t.len ≤ m.middleware.len

  use_middleware-IsBehind :
      (t : Slice) (mw : List (Middleware HandlerError (Running S))) (m : Manager S) (st : Store S L)
      → IsBehind t m st
      → IsBehind t (use_middleware g mw m st).0 (use_middleware g mw m st).1
  unfolding use_middleware
  use_middleware-IsBehind t mw m st b = record {
    manager_valid = append-IsValid m.middleware mw st.arrays b.manager_valid g;
    worker_valid =
        append-IsValid_other m.middleware mw st.arrays b.manager_valid g t b.worker_valid;
    shorter = append-array m.middleware mw st.arrays b.manager_valid g t b.worker_valid b.shorter;
  }

  use_each-keeps :
      (t : Slice) (mws : List (List (Middleware HandlerError (Running S)))) (m : Manager S)
      (st : Store S L)
      → IsBehind t m st
      → contents (use_each mws m st).1.arrays t ≡ contents st.arrays t
  unfolding use_each use_middleware
  use_each-keeps t [] m st b = refl
  use_each-keeps t (mw ∷ mws) m st b =
      use_each-keeps t mws _ _ (use_middleware-IsBehind t mw m st b)
      ∙ contents-append_other m.middleware mw st.arrays b.manager_valid g t b.worker_valid.given
          b.shorter

  -- A worker runs the middleware that its manager had when it was made, in order, whatever
  -- middleware the manager is given afterwards, in however many calls.
  pub worker-use_each :
      (opts : WorkerOptions) (mws : List (List (Middleware HandlerError (Running S))))
      (m : Manager S) (st : Store S L)
      → IsValid st.arrays m.middleware
      → as_worker (worker opts m) (use_each mws m st).1
        ≡ new_worker m.driver opts m.handlers m.default_handler
            (contents st.arrays m.middleware)
            m.connection
  unfolding worker as_worker new_worker
  worker-use_each opts mws m st v =
      ap (λ p. new_worker m.driver opts m.handlers m.default_handler p m.connection)
        (use_each-keeps m.middleware mws m st
          (record { manager_valid = v; worker_valid = v; shorter = λ _. omega arith }))

  -- Where the manager's array has room, two workers of one manager write into the same place: after
  -- each has been given as many middleware as the other, the first one runs the second one's in place
  -- of its own.
  pub use_on_worker-shared :
      (opts opts' : WorkerOptions) (xs ys : List (Middleware HandlerError (Running S)))
      (m : Manager S) (st : Store S L)
      → IsValid st.arrays m.middleware
      → length ys ≡ length xs
      → m.middleware.len + length xs ≤ m.middleware.cap
      → let (w, st1) = use_on_worker g xs (worker opts m) st in
        let (w', st2) = use_on_worker g ys (worker opts' m) st1 in
        (as_worker w st2).pipeline ≡ contents st.arrays m.middleware ++ ys
  unfolding worker as_worker use_on_worker
  use_on_worker-shared opts opts' xs ys m st v same room =
      contents-append_twice m.middleware xs st.arrays v g ys same room
