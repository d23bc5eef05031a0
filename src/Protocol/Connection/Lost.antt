-- ===== src/Protocol/Connection/Lost.antt =====
-- A peer that closes the connection while a command waits for its reply.
use emcache.Prelude.{
  ◌≡◌, refl, ◌∙◌, ap, true, Option, none, some, List, [], ◌∷◌, if_case, arith, Bool-cases, inl, inr,
}
use emcache.Protocol.Connection.{
  Parser, one_line, multi_line, auto_discovery, Connection, connection_made, connection_lost,
  eof_received, close, resume, finished,
}

-- What the event loop and the pool do with a connection, other than bringing data.
pub data Call : Type 0 where
  made lost eof closing : Call

unfoldable pub called : Call → Connection → Connection
called made c = connection_made c
called lost c = connection_lost c
called eof c = eof_received c
called closing c = close c

unfoldable pub calls : List Call → Connection → Connection
unfolding called
calls [] c = c
calls (e ∷ es) c = calls es (called e c)

close-parser : (c : Connection) → (close c).parser ≡ c.parser
unfolding close
close-parser c = if_case (λ (d : Connection). d.parser ≡ c.parser) c.closed (λ _. refl) (λ _. refl)

close-closed : (c : Connection) → (close c).closed ≡ true
unfolding close
close-closed c = if_case (λ (d : Connection). d.closed ≡ true) c.closed (λ e. e) (λ _. refl)

-- A call keeps the parser of the command and a closed connection closed.
called-keeps :
    (e : Call) (c : Connection)
    → ((called e c).parser ≡ c.parser) × (c.closed ≡ true → (called e c).closed ≡ true)
unfolding called connection_made connection_lost eof_received
called-keeps made c = (refl, λ k. k)
called-keeps lost c = (close-parser c, λ _. close-closed c)
called-keeps eof c = (close-parser c, λ _. close-closed c)
called-keeps closing c = (close-parser c, λ _. close-closed c)

calls-keeps :
    (es : List Call) (c : Connection)
    → c.closed ≡ true
    → ((calls es c).parser ≡ c.parser) × ((calls es c).closed ≡ true)
unfolding calls
calls-keeps [] c k = (refl, k)
calls-keeps (e ∷ es) c k =
    let (same, stays) = called-keeps e c in
    let (after, ends) = calls-keeps es (called e c) (stays k) in (after ∙ same, ends)

still_waits : (c d : Connection) (p : Option Parser) → finished c p ≡ none → finished d p ≡ none
unfolding finished
still_waits c d none h = refl
still_waits c d (some (one_line p)) h = elim (Bool-cases p.done) [
  | inl e ↦ absurd (ground (arith, h, e))
  | inr e ↦ rw e refl
]
still_waits c d (some (multi_line p)) h = elim (Bool-cases p.done) [
  | inl e ↦ absurd (ground (arith, h, e))
  | inr e ↦ rw e refl
]
still_waits c d (some (auto_discovery p)) h = elim (Bool-cases p.done) [
  | inl e ↦ absurd (ground (arith, h, e))
  | inr e ↦ rw e refl
]

resume-parser : (c d : Connection) → d.parser ≡ c.parser → resume c ≡ none → resume d ≡ none
unfolding resume
resume-parser c d same h = ap (finished d) same ∙ still_waits c d c.parser h

-- When the peer goes away while a command waits for its reply, the connection is closed, but the
-- command is not woken: after `connection_lost` and any further calls of `connection_made`,
-- `connection_lost`, `eof_received` and `close`, its coroutine still waits.
pub connection_lost-waits :
    (c : Connection) (es : List Call)
    → resume c ≡ none
    → (resume (calls es (connection_lost c)) ≡ none)
      × ((calls es (connection_lost c)).closed ≡ true)
unfolding connection_lost
connection_lost-waits c es h =
    let (same, shut) = calls-keeps es (close c) (close-closed c) in
    (resume-parser c (calls es (close c)) (same ∙ close-parser c) h, shut)
