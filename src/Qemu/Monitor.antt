-- ===== src/Qemu/Monitor.antt =====
-- internal/qemu/qmp.go: the client of the QEMU machine protocol. The replies that the decoder will
-- yield are a list; its end stands for the decoder's error. Payloads are left as bytes, and what
-- encoding/json makes of a status payload is an argument.
use dvm.Base.{Bytes, codes, is_empty, Bool, Option, none, some, List, [], ◌∷◌, ◌++◌}
use dvm.Base.{if◌then◌else◌, Result, ok, err}

-- `qmpResponse`; the error is its description.
pub record Response : Type 0 where
  pub result : Bytes
  pub error : Option Bytes
  pub event : Bytes

pub data QmpError : Type 0 where
  connection : QmpError
  refused : Bytes → Bytes → QmpError
  bad_payload : QmpError

-- The requests sent so far, the replies to come, and whether the next write succeeds.
pub record Link : Type 0 where
  pub sent : List Bytes
  pub incoming : List Response
  pub writable : Bool

unfoldable pub reply : Bytes → Response → Result QmpError Bytes
reply command r = elim r.error [ none ↦ ok r.result | some desc ↦ err (refused command desc) ]

-- The loop: events are skipped, and the first other reply is the answer.
unfoldable pub await_reply : Bytes → List Response → Result QmpError Bytes × List Response
unfolding reply
await_reply command [] = (err connection, [])
await_reply command (r ∷ rs) =
    let rest = await_reply command rs in if is_empty r.event then (reply command r, rs) else rest

-- `Execute`
unfoldable pub execute : Bytes → Link → Result QmpError Bytes × Link
execute command l =
    if l.writable
    then (
      (await_reply command l.incoming).0,
      record l { sent = l.sent ++ (command ∷ []); incoming = (await_reply command l.incoming).1 },
    )
    else (err connection, l)

unfoldable pub greet : Link → List Response → Result QmpError Bytes × Link
greet l [] = (err connection, l)
greet l (r ∷ rs) = execute (codes "qmp_capabilities") (record l { incoming = rs })

-- `negotiate`: the greeting is read whatever it holds, then command mode is entered.
unfoldable pub negotiate : Link → Result QmpError Bytes × Link
unfolding greet
negotiate l = greet l l.incoming

-- `Powerdown`
unfoldable pub powerdown : Link → Result QmpError Bytes × Link
powerdown = execute (codes "system_powerdown")

decode_status : (Bytes → Option Bytes) → Result QmpError Bytes → Result QmpError Bytes
decode_status unmarshal (err e) = err e
decode_status unmarshal (ok raw) = elim (unmarshal raw) [ none ↦ err bad_payload | some s ↦ ok s ]

-- `QueryStatus`
unfoldable pub query_status : (Bytes → Option Bytes) → Link → Result QmpError Bytes × Link
unfolding decode_status
query_status unmarshal l =
    let (r, l') = execute (codes "query-status") l in (decode_status unmarshal r, l')

-- One round of `DialQMP`: the connection is made, or it is not, and the deadline has passed or has
-- not passed then.
pub data Dial : Type 0 where
  dialled : Link → Dial
  late : Dial
  retried : Dial

-- A negotiation that fails closes the connection.
unfoldable pub negotiated : Result QmpError Bytes × Link → Result QmpError Link
negotiated (ok r, l) = ok l
negotiated (err e, l) = err e

-- `DialQMP` on the rounds to come, which the deadline bounds
unfoldable pub dial_qmp : List Dial → Result QmpError Link
dial_qmp [] = err connection
dial_qmp (dialled l ∷ rounds) = negotiated (negotiate l)
dial_qmp (late ∷ rounds) = err connection
dial_qmp (retried ∷ rounds) = dial_qmp rounds
