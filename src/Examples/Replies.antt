-- ===== src/Examples/Replies.antt =====
-- The replies and the check without HTTP, at concrete inputs.
use tower_rate_tier.Tier.{check as check_directly}
use tower_rate_tier.Check.{request_cost}
use tower_rate_tier.Examples.Memory.{quota}
use tower_rate_tier.Examples.Service.{answering, env, limiter, request, settings, world}
use tower_rate_tier.HashMap.{get}
use tower_rate_tier.Policy.{TierIdentity}
use tower_rate_tier.Prelude.{◌++◌, ◌>>=◌, refl, some, ◌∷◌, ◌≡◌}
use tower_rate_tier.Prelude.Text.{codes, text_eq}
use tower_rate_tier.Response.{escape_json_string}
use tower_rate_tier.Response.Escape.{plain, quote, read_string, read_string-escape_json_string}
use tower_rate_tier.Service.{limit_request}
use tower_rate_tier.Service.Direct.{limit_request-check, reply_to}
use tower_rate_tier.Tier.{get_quota}

read_string-escape_json_string_example :
    read_string plain (escape_json_string (codes "a\"b\\c\n") ++ quote ∷ codes "}")
    ≡ some (codes "a\"b\\c\n", codes "}")
read_string-escape_json_string_example =
    read_string-escape_json_string (codes "a\"b\\c\n") (codes "}")

abbrev pub free_ana : TierIdentity
free_ana = record { user_id = codes "ana"; tier = codes "free" }

free_configured : get_quota limiter (codes "free") ≡ some quota
unfolding get_quota text_eq get
free_configured = refl

limit_request-check_example :
    limit_request env limiter settings answering request (some free_ana) world ≡ (
      check_directly limiter
        (codes "ana")
        (codes "free")
        (request_cost request.parts settings)
        world
      >>= reply_to env settings answering request (codes "ana") (codes "free") quota)
limit_request-check_example =
    limit_request-check env limiter settings answering request free_ana quota world free_configured
