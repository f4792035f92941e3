-- ===== src/Server/Tests.antt =====
-- The pipeline of internal/server/pipeline.go with one middleware that answers.
use aegis_llm.Prelude.{◌↔◌, ◌≤◌, List, true}
use aegis_llm.Server.Lifecycle.{
  Event, request, handler_end, new_lifecycle, run_lifecycle, start_draining, handlers_drained,
  start_draining-handlers_drained,
}
use aegis_llm.Prelude.{ℤ, [], ◌∷◌, ◌≡◌, refl, codes}
use aegis_llm.Server.Context.{RequestContext, returned, panicked}
use aegis_llm.Server.Sample.{sample_context}
use aegis_llm.Server.Pipeline.{Middleware, serve_http, new_pipeline}
use aegis_llm.Server.Answers.{IsFinished, serve_http-IsFinished}

abbrev fails_hard : Middleware ℤ
fails_hard next ctx = panicked ctx

serve_http-IsFinished_example :
    (done : RequestContext ℤ) × (serve_http
        (new_pipeline (codes "f") (fails_hard ∷ []))
        sample_context
      ≡ returned done)
    × IsFinished done
serve_http-IsFinished_example =
    serve_http-IsFinished (codes "f") (fails_hard ∷ []) sample_context refl

-- Two requests run when the server begins to drain; one of them ends, and a third one comes too late.
abbrev early : List Event
early = request ∷ request ∷ []

abbrev late : List Event
late = handler_end ∷ request ∷ []

start_draining-handlers_drained_example :
    ((handlers_drained
          (start_draining (run_lifecycle early new_lifecycle)).1
          (run_lifecycle late (start_draining (run_lifecycle early new_lifecycle)).0)
        ≡ true)
      ↔ ((run_lifecycle late (start_draining (run_lifecycle early new_lifecycle)).0).active ≡ 0))
    × ((run_lifecycle late (start_draining (run_lifecycle early new_lifecycle)).0).active
        ≤ (run_lifecycle early new_lifecycle).active)
start_draining-handlers_drained_example = start_draining-handlers_drained early late
