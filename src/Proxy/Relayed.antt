-- ===== src/Proxy/Relayed.antt =====
-- net/http/httputil: what the client gets of a backend's reply.
use decision_gateway.Prelude.{◌≡◌, refl, ap, ◌∙◌, none, some, ◌++◌}
use decision_gateway.Net.Headers.{Headers, copy_all}
use decision_gateway.Net.Http.{Reply, Response, response_write_header, response_write}
use decision_gateway.Writer.{Writer, write_header, edit_header, response_of}
use decision_gateway.Writer.Agreement.{Agrees, sent, response_of-edit_header, edit_header-Agrees}
use decision_gateway.Writer.Responses.{response_of-write_header, response_of-write}
use decision_gateway.World.{Trip, replied, failed, cut}
use decision_gateway.Proxy.Forward.{relay, copy_reply, strip_hops}

-- The client got what there is of the reply.
abbrev pub IsCopied : Reply → Response → Response → Type 0
IsCopied reply before after =
    (after.status ≡ some reply.status)
    × (after.body ≡ before.body ++ reply.body)
    × (after.sent_header ≡ copy_all before.header (strip_hops reply.header))

-- The client's response `after`, when the call of the backend came out so and the response was
-- `before`.
abbrev pub IsRelayed : Trip → Response → Response → Type 0
IsRelayed (failed e) before after = (after.status ≡ some 502) × (after.body ≡ before.body)
IsRelayed (replied reply) before after = IsCopied reply before after
IsRelayed (cut reply) before after = IsCopied reply before after

copy_reply-IsCopied :
    (reply : Reply) (w : Writer)
    → Agrees w
    → sent w ≡ none
    → IsCopied reply (response_of w) (response_of (copy_reply reply w))
unfolding copy_reply response_write_header response_write
copy_reply-IsCopied reply w a h =
    let f = λ (k : Headers). copy_all k (strip_hops reply.header) in
    let edited = response_of-edit_header f w in
    let unsent : sent (edit_header f w) ≡ none = ap (λ (r : Response). r.status) edited ∙ h in
    rw
      (
        response_of-write reply.body (write_header reply.status (edit_header f w)),
        response_of-write_header reply.status (edit_header f w) (edit_header-Agrees f w a) unsent,
        edited,
        h,
      )
      (refl, refl, refl)

pub relay-IsRelayed :
    (trip : Trip) (w : Writer)
    → Agrees w
    → sent w ≡ none
    → IsRelayed trip (response_of w) (response_of (relay trip w))
unfolding relay response_write_header
relay-IsRelayed (failed e) w a h = rw (response_of-write_header 502 w a h, h) (refl, refl)
relay-IsRelayed (replied reply) w a h = copy_reply-IsCopied reply w a h
relay-IsRelayed (cut reply) w a h = copy_reply-IsCopied reply w a h
