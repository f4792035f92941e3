-- ===== src/Router/Tests.antt =====
-- The router of internal/middleware/router.go at concrete values: two channels of one model.
use aegis_llm.Prelude.{
  ℤ, pos, [], ◌∷◌, ◌≡◌, refl, true, false, arith, Bytes, codes, Option, none, some, str_eq, select,
  is_some,
}
use aegis_llm.Breaker.{half_open, new_breaker}
use aegis_llm.Server.Context.{returned, abort}
use aegis_llm.Server.Sample.{sample_context}
use aegis_llm.Router.Channel.{Channel, is_eligible}
use aegis_llm.Router.Pick.{weight_of, weight_sum, pick_weighted, Share, pick-Share}
use aegis_llm.Router.Table.{Table, new_router_table, route, has_unused_candidate}
use aegis_llm.Router.Selection.{Chosen, route-Chosen, route-has_unused_candidate}
use aegis_llm.Router.Failover.{Outcome, Request, route_loop}
use aegis_llm.Router.Attempts.{untried, IsSound, route_loop-IsSound}
use aegis_llm.Router.Single.{IsSingle, route_loop-IsSingle}
use aegis_llm.Server.Pipeline.{execute}
use aegis_llm.Middleware.Keys.{KeyConfig}
use aegis_llm.Middleware.Proxy.{Urls}
use aegis_llm.Middleware.Chain.{provider_chain}
use aegis_llm.Router.Probes.{is_probed, route_loop-keeps_probes}

abbrev channel : Bytes → ℤ → Channel
channel id weight = record {
  id = id;
  name = id;
  kind = codes "openai";
  base_url = codes "https://api.openai.com";
  key_id = id;
  models = codes "m" ∷ [];
  weight = weight;
  priority = pos 1;
  api_version = [];
  enabled = true;
}

abbrev one : Channel
one = channel (codes "1") (pos 3)

abbrev two : Channel
two = channel (codes "2") (pos 5)

abbrev table : Table
table = new_router_table (one ∷ two ∷ [])

-- The breaker of the second channel is half-open.
abbrev probing : Table
probing = record {
  channels = one ∷ two ∷ [];
  breakers = (codes "1", new_breaker) ∷ (codes "2", record new_breaker { state = half_open }) ∷ [];
}

abbrev draw_four : ℤ → Option ℤ
draw_four n = some (pos 4)

abbrev no_time : ℤ → ℤ
no_time t = pos 0

abbrev request : Request ℤ
request = record {
  env = record {
    draw = λ n. draw_four;
    since = λ n. no_time;
    since_fallback = λ n. no_time;
    now = λ n. pos 7;
  };
  next = λ c. returned (abort (pos 400) [] c);
  model = codes "m";
  streaming = false;
  canonical = codes "{}";
}

pick-Share_example :
    (chosen : Channel) × (pick_weighted draw_four (one ∷ two ∷ []) ≡ some chosen)
    × Share 4 (one ∷ two ∷ []) chosen
unfolding weight_sum weight_of
pick-Share_example = pick-Share draw_four 4 one (two ∷ []) (omega arith) refl (omega arith)

route-Chosen_example :
    (let (t', r) = route draw_four no_time table (codes "m") [] in
      Chosen draw_four no_time table (codes "m") [] t' r)
route-Chosen_example = route-Chosen draw_four no_time table (codes "m") []

route-has_unused_candidate_example :
    is_some (route draw_four no_time table (codes "m") (codes "1" ∷ [])).1
    ≡ has_unused_candidate no_time table (codes "m") (codes "1" ∷ [])
route-has_unused_candidate_example =
    route-has_unused_candidate draw_four no_time table (codes "m") (codes "1" ∷ [])

route_loop-IsSound_example :
    (out : Outcome ℤ) × (route_loop 3 request table sample_context [] ≡ some out)
    × IsSound request table [] out
unfolding untried new_router_table select is_eligible str_eq
route_loop-IsSound_example = route_loop-IsSound 3 request table sample_context [] (omega arith)

abbrev outcome_of : Option (Outcome ℤ) → Outcome ℤ
outcome_of none = record { table = table; flow = returned sample_context; tried = [] }
outcome_of (some out) = out

abbrev outcome : Outcome ℤ
outcome = outcome_of (route_loop 3 request probing sample_context [])

route_loop-keeps_probes_example : is_probed probing.breakers (codes "2") ≡ true
unfolding route_loop is_probed new_breaker str_eq
route_loop-keeps_probes_example =
    route_loop-keeps_probes 3 request probing sample_context [] outcome (codes "2") refl refl

-- No key service, no adapter and no engine: every attempt ends in an abort.
abbrev no_urls : Urls
no_urls = record { parse = λ text. none; resolve = λ base rel. [] }

abbrev no_keys : KeyConfig
no_keys = record { provider = none; pool_key_mapping = [] }

route_loop-IsSingle_example :
    (out : Outcome ℤ) × (route_loop 3
        (record {
          env = request.env;
          next = execute (provider_chain no_keys [] [] (pos 100) no_urls none);
          model = codes "m";
          streaming = false;
          canonical = codes "{}";
        })
        table
        sample_context
        []
      ≡ some out)
    × IsSingle (execute (provider_chain no_keys [] [] (pos 100) no_urls none)) sample_context out
unfolding untried new_router_table select is_eligible str_eq
route_loop-IsSingle_example =
    route_loop-IsSingle 3 request.env (codes "m") false (codes "{}") no_keys [] [] (pos 100) no_urls
      none table sample_context [] (omega arith)
