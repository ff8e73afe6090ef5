-- ===== src/Seraph/Turns.antt =====
-- The requests to the database are served, with one worker or more (piwheels/master/seraph.py).
use piwheels.Prelude.{
  list_eq, nat_eq, ◌≡◌, refl, sym, ◌∙◌, ap, some, List, [], ◌∷◌, ◌++◌, Text, beq_refl,
}
use piwheels.Seraph.{
  Message, Seraph, hand_out, handle_front, handle_back, take_out, Happening, polled, answered,
  happen, run,
}

-- In turn, Seraph polls and the worker that got the request answers it, with `f` of its body.
unfoldable pub schedule : (Text → Text) → List Message → List Text → List Happening
schedule f [] ws = []
schedule f (m ∷ ms) [] = []
schedule f (m ∷ ms) (w ∷ ws) = polled ∷ answered w (f m.body) ∷ schedule f ms (ws ++ w ∷ [])

unfoldable pub answers_to : (Text → Text) → List Message → List Message
answers_to f [] = []
answers_to f (m ∷ ms) = record m { body = f m.body } ∷ answers_to f ms

abbrev pub waiting : Text → List Text → List Message → List Message → Seraph
waiting w ws ms as' = record { workers = w ∷ ws; front = ms; busy = []; answers = as' }

append_assoc : (xs ys zs : List Message) → (xs ++ ys) ++ zs ≡ xs ++ (ys ++ zs)
append_assoc [] ys zs = refl
append_assoc (x ∷ xs) ys zs = ap (λ ws. x ∷ ws) (append_assoc xs ys zs)

append_nil : (xs : List Message) → xs ++ [] ≡ xs
append_nil [] = refl
append_nil (x ∷ xs) = ap (λ ws. x ∷ ws) (append_nil xs)

take_out-first : (w : Text) (m : Message) → take_out w ((w, m) ∷ []) ≡ some (m, [])
unfolding take_out
take_out-first w m = rw (beq_refl w) refl

-- One turn.
turn :
    (w : Text) (ws : List Text) (m : Message) (ms as' : List Message) (body : Text)
    → happen (answered w body) (happen polled (waiting w ws (m ∷ ms) as')) ≡ record {
      workers = ws ++ w ∷ [];
      front = ms;
      busy = [];
      answers = as' ++ record m { body = body } ∷ [];
    }
unfolding happen handle_front hand_out handle_back
turn w ws m ms as' body = rw (take_out-first w m, happen) refl

-- With a worker that is free and none that is busy, the requests in the front queue are all served by
-- taking turns: none is left waiting or with a worker, and the clients get the answers to their
-- own requests, in the order in which those had come.
pub run-schedule :
    (f : Text → Text) (w : Text) (ws : List Text) (ms as' : List Message)
    → (v : Text) × (vs : List Text) × (run (schedule f ms (w ∷ ws)) (waiting w ws ms as')
        ≡ waiting v vs [] (as' ++ answers_to f ms))
unfolding run schedule answers_to
run-schedule f w ws [] as' = (w, ws, ap (waiting w ws []) (sym (append_nil as')))
run-schedule f w [] (m ∷ ms) as' =
    let a = record m { body = f m.body } in
    let (v, vs, same) = run-schedule f w [] ms (as' ++ a ∷ []) in
    (
      v,
      vs,
      ap (run (schedule f ms ([] ++ w ∷ []))) (turn w [] m ms as' (f m.body))
          ∙ same
          ∙ ap (waiting v vs []) (append_assoc as' (a ∷ []) (answers_to f ms)),
    )
run-schedule f w (x ∷ ws) (m ∷ ms) as' =
    let a = record m { body = f m.body } in
    let (v, vs, same) = run-schedule f x (ws ++ w ∷ []) ms (as' ++ a ∷ []) in
    (
      v,
      vs,
      ap (run (schedule f ms ((x ∷ ws) ++ w ∷ []))) (turn w (x ∷ ws) m ms as' (f m.body))
          ∙ same
          ∙ ap (waiting v vs []) (append_assoc as' (a ∷ []) (answers_to f ms)),
    )
