-- ===== src/Qemu/Replies.antt =====
-- Which reply a command gets.
use dvm.Base.{Bytes, is_empty, true, false, List, [], ◌∷◌, ◌++◌, All, Bool-cases}
use dvm.Base.{err, ◌≡◌, inl, inr, refl}
use dvm.Qemu.Monitor.{Response, connection, Link, reply, await_reply, execute}

abbrev pub IsEvent : Response → Type 0
IsEvent r = is_empty r.event ≡ false

await_reply-append :
    (command : Bytes) (events rest : List Response)
    → All IsEvent events
    → await_reply command (events ++ rest) ≡ await_reply command rest
unfolding await_reply
await_reply-append command [] rest h = refl
await_reply-append command (e ∷ events) rest (he, hs) =
    rw he (await_reply-append command events rest hs)

-- On a connection that can be written to, a command is sent once, and whatever events come first,
-- it is answered by the first reply that is no event; the replies behind that one are left for the
-- next command.
pub execute_answer :
    (command : Bytes) (l : Link) (events rest : List Response) (r : Response)
    → l.writable ≡ true
    → l.incoming ≡ events ++ (r ∷ rest)
    → All IsEvent events
    → is_empty r.event ≡ true
    → execute command l
      ≡ (reply command r, record l { sent = l.sent ++ (command ∷ []); incoming = rest })
unfolding execute await_reply
execute_answer command l events rest r w e ev nr =
    rw (w, e, await_reply-append command events (r ∷ rest) ev, nr)

await_reply-connection :
    (command : Bytes) (rs : List Response)
    → All IsEvent rs
    → (await_reply command rs).0 ≡ err connection
unfolding await_reply
await_reply-connection command [] h = refl
await_reply-connection command (r ∷ rs) (hr, hs) = rw hr (await_reply-connection command rs hs)

-- With nothing but events before the connection ends, the command fails.
pub execute_no_answer :
    (command : Bytes) (l : Link) → All IsEvent l.incoming → (execute command l).0 ≡ err connection
unfolding execute
execute_no_answer command l ev = elim (Bool-cases l.writable) [
  | inl e ↦ rw e (await_reply-connection command l.incoming ev)
  | inr e ↦ rw e refl
]
