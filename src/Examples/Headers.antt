-- ===== src/Examples/Headers.antt =====
-- A request with an identifier that is refused and no trace.
use strait.Base.{Every, ◌≡◌, ◌≤◌, ◌<◌, [], ◌∷◌, Bytes, codes, length, arith}
use strait.Meta.Request.{MetaInput, build_request_meta}
use strait.Meta.Traced.{IsIdChar, IsHexChar, build_request_meta-Safe}

abbrev as_is : Bytes → Bytes
as_is s = s

abbrev eight_bytes : Bytes
eight_bytes = 1 ∷ 2 ∷ 3 ∷ 4 ∷ 5 ∷ 6 ∷ 7 ∷ 255 ∷ []

abbrev odd_request : MetaInput
odd_request = record {
  x_request_id = codes "a b";
  traceparent = [];
  tracestate = [];
  id_bytes = 9 ∷ 10 ∷ 11 ∷ 12 ∷ eight_bytes;
  trace_bytes = 9 ∷ 10 ∷ 11 ∷ 12 ∷ 13 ∷ 14 ∷ 15 ∷ 16 ∷ eight_bytes;
  parent_bytes = eight_bytes;
}

build_request_meta-Safe_example :
    (0 < length (build_request_meta as_is as_is odd_request).request_id)
    × (length (build_request_meta as_is as_is odd_request).request_id ≤ 128)
    × Every IsIdChar (build_request_meta as_is as_is odd_request).request_id
    × (length (build_request_meta as_is as_is odd_request).trace_id ≡ 32)
    × Every IsHexChar (build_request_meta as_is as_is odd_request).trace_id
build_request_meta-Safe_example =
    build_request_meta-Safe as_is as_is odd_request (ground arith) (ground arith) (ground arith)
