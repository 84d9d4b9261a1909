-- ===== src/Examples/Bodies.antt =====
-- A streaming chat request with stream options through the body middleware.
use strait.Base.{[], ◌∷◌, false, Option, none, some, Bytes, codes, pos, arith}
use strait.BodyScan.Inspect.{inspect_request_body}
use strait.BodyScan.Terminates.{Settled, inspect_request_body-Settled}
use strait.Body.Inject.{sends, body_limit, body_context}
use strait.Body.Extends.{Delivers, body_context-Delivers}

abbrev before_last : Bytes → Bytes
before_last [] = []
before_last (c ∷ []) = []
before_last (c ∷ d ∷ s) = c ∷ before_last (d ∷ s)

-- The text between the quotes, as `strconv.Unquote` gives it for a text without escapes.
abbrev inner : Bytes → Option Bytes
inner [] = none
inner (q ∷ s) = some (before_last s)

abbrev as_is : Bytes → Bytes
as_is s = s

abbrev streaming_body : Bytes
streaming_body = codes "{\"stream\":true,\"stream_options\":{}}"

inspect_request_body-Settled_example : Settled (inspect_request_body inner as_is streaming_body)
inspect_request_body-Settled_example = inspect_request_body-Settled inner as_is streaming_body

body_context-Delivers_example :
    Delivers streaming_body
      (inspect_request_body inner as_is streaming_body)
      (body_context inner as_is (pos 100) (sends streaming_body false))
unfolding body_limit
body_context-Delivers_example =
    body_context-Delivers inner as_is (pos 100) streaming_body (omega arith)
