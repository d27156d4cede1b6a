-- ===== src/Middleware/CorrelationId.antt =====
-- internal/middleware/correlationid.go: the CorrelationID middleware.
use decision_gateway.Prelude.{none, some, [], if◌then◌else◌, Text, is_blank}
use decision_gateway.Net.Headers.{get, set}
use decision_gateway.Net.Http.{Context, Request}
use decision_gateway.Writer.{edit_header}
use decision_gateway.World.{World, Env, Handler}
use decision_gateway.Middleware.Names.{correlation_id_header}
use decision_gateway.Middleware.Uuid.{new_uuid}

-- The ID of a request: the inbound header, or a new one where that is absent or empty.
unfoldable pub resolve_id : Env → Request → World → Text × World
resolve_id env r s =
    let id = get correlation_id_header r.header in if is_blank id then new_uuid env s else (id, s)

unfoldable pub with_id : Text → Request → Request
with_id id r = record r { context = record (r.context) { correlation_id = some id } }

unfoldable pub correlation_id : Env → Handler → Handler
unfolding resolve_id with_id
correlation_id env next r w s =
    let (id, s') = resolve_id env r s in
    next (with_id id r) (edit_header (set correlation_id_header id) w) s'

-- `CorrelationIDFromContext`
unfoldable pub id_from_context : Context → Text
id_from_context c = elim (c.correlation_id) [ none ↦ [] | some id ↦ id ]
