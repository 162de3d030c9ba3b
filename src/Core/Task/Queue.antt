-- ===== src/Core/Task/Queue.antt =====
-- The output queue of `Task` as its readers see it (fabricatio_core/models/task.py).
use fabricatio.Prelude.{◌≡◌, ap, ◌∙◌, Option, [], ◌∷◌, ◌++◌, arith, Text}
use fabricatio.Prelude.Exec.{done, blocked}
use fabricatio.Core.Task.{Task, get_output}
use fabricatio.Core.Task.Lifecycle.{Bus, finish}
use fabricatio.Core.Task.Outputs.{IsQuiet, output-finish}

get_output_last :
    {V : Type 0} (t : Task V) (value : Option V)
    → t.output ≡ value ∷ []
    → ((get_output t).0 ≡ done value) × ((get_output (get_output t).1).0 ≡ blocked)
unfolding get_output
get_output_last t value h = ground arith

module _ {V : Type 0} (delimiter : Text) where
  -- Where the subscribers leave the output queue alone, the queue is empty and `finish` returns,
  -- the first `get_output` gives the output, and a second one waits for ever.
  pub get_output-finish :
      (bus : Bus V) (value : Option V) (t : Task V)
      → IsQuiet bus
      → t.output ≡ []
      → (finish delimiter bus value t).0 ≡ done tt
      → let t' = (finish delimiter bus value t).1 in
        ((get_output t').0 ≡ done value) × ((get_output (get_output t').1).0 ≡ blocked)
  get_output-finish bus value t quiet empty finishes =
      get_output_last (finish delimiter bus value t).1 value (
        (rw finishes at (output-finish delimiter bus value t quiet))
        ∙ ap (λ o. o ++ (value ∷ [])) empty)
