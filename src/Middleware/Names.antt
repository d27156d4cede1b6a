-- ===== src/Middleware/Names.antt =====
-- The header name of internal/middleware/correlationid.go, spelled as http.Header stores it.
use decision_gateway.Prelude.{Text, text}

abbrev pub correlation_id_header : Text
correlation_id_header = text "X-Correlation-Id"
