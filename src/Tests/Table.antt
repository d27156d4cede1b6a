-- ===== src/Tests/Table.antt =====
-- The admin endpoint, the construction of a handler, and new correlation IDs.
use decision_gateway.Prelude.{◌≡◌, refl, none, arith, text, pos}
use decision_gateway.Proxy.Transport.{upstream_http1}
use decision_gateway.Proxy.Build.{BuildConfig}
use decision_gateway.Api.Routes.{post_table}
use decision_gateway.Handlers.Table.{PostVerdict, post_table-PostVerdict}
use decision_gateway.Middleware.Uuid.{new_uuid}
use decision_gateway.Middleware.Uuid.Layout.{IsRandom, IsUuid4, new_uuid-IsUuid4}
use decision_gateway.Middleware.Uuid.Decoding.{decode_uuid, marked, new_uuid-decodes}
use decision_gateway.Tests.Sample.{block, env, world}

abbrev pub config : BuildConfig
config = record {
  backend_timeout = pos 5;
  pool = record { max_idle_conns_per_host = pos 0; idle_conn_timeout = pos 0 };
  protocol = upstream_http1;
  transport_wrapper = none;
}

pub env-IsRandom : IsRandom env
env-IsRandom = record {
  fills = λ n b e. let same : block ≡ b = cc in rw⁻¹ same (refl, omega arith);
}

post_table-PostVerdict_example :
    PostVerdict env (text "{}") world (post_table env config (text "{}") world)
post_table-PostVerdict_example = post_table-PostVerdict env config (text "{}") world

new_uuid-text : (new_uuid env world).0 ≡ text "00010203-0405-4f07-bf09-0a0b0c0d0e0f"
unfolding new_uuid
new_uuid-text = refl

new_uuid-IsUuid4_example : IsUuid4 (new_uuid env world).0
new_uuid-IsUuid4_example = new_uuid-IsUuid4 env world env-IsRandom

new_uuid-decodes_example : decode_uuid (new_uuid env world).0 ≡ marked block
new_uuid-decodes_example = new_uuid-decodes env world block env-IsRandom refl
