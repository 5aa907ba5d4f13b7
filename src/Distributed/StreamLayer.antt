-- ===== src/Distributed/StreamLayer.antt =====
-- internal/log/distributed/stream_layer.go, and the matcher by which internal/agent/agent.go tells
-- Raft's connections from the others on one port. TLS is a parameter.
use distributed_systems_trai.Base.{
  ℕ, ◌≡◌, refl, ap, ◌∙◌, ◌↔◌, Bool, true, false, Option, none, some, List, [], ◌∷◌, ◌++◌, arith,
  ◌==◌, if◌then◌else◌, eof, invalid, Result, ok, err, ◌>>=◌,
}

abbrev pub raft_rpc : ℕ
raft_rpc = 1

-- A TCP connection: the bytes that the other side has sent and that were not read, and the bytes
-- that were sent to it.
pub record Conn : Type 0 where
  pub incoming : List ℕ
  pub outgoing : List ℕ

-- net.Conn: a TCP connection as it is, or under TLS with a configuration.
pub data NetConn {ℓ} (Tls : Type ℓ) : Type ℓ where
  plain : Conn → NetConn Tls
  tls_server tls_client : Tls → Conn → NetConn Tls

-- Read of one byte; the other side has closed the connection when there is none.
abbrev pub read_byte : List ℕ → Result (ℕ × List ℕ)
read_byte [] = err eof
read_byte (b ∷ bs) = ok (b, bs)

module _ {ℓ} {Tls : Type ℓ} where
  serve_tls : Option Tls → Conn → NetConn Tls
  serve_tls none conn = plain conn
  serve_tls (some cfg) conn = tls_server cfg conn

  dial_tls : Option Tls → Conn → NetConn Tls
  dial_tls none conn = plain conn
  dial_tls (some cfg) conn = tls_client cfg conn

  -- Accept, on what the listener's Accept returns. A connection that does not start with the byte is
  -- an error, `invalid` here.
  unfoldable pub accept : Option Tls → Result Conn → Result (NetConn Tls)
  unfolding serve_tls
  accept tls accepted = do
    conn ← accepted
    b ← read_byte conn.incoming
    if b.0 == raft_rpc then ok (serve_tls tls (record conn { incoming = b.1 })) else err invalid

  -- Dial, on what the dialer and the connection's Write return.
  unfoldable pub dial : Option Tls → Result Conn → Result (Unit {0}) → Result (NetConn Tls)
  unfolding dial_tls
  dial tls dialed writing = do
    conn ← dialed
    _ ← writing
    ok (dial_tls tls (record conn { outgoing = conn.outgoing ++ (raft_rpc ∷ []) }))

  abbrev pub conn_of : NetConn Tls → Conn
  conn_of (plain c) = c
  conn_of (tls_server cfg c) = c
  conn_of (tls_client cfg c) = c

-- The matcher of setupLog: it reads one byte.
unfoldable pub is_raft : List ℕ → Bool
is_raft bytes = elim (read_byte bytes) [ err e ↦ false | ok b ↦ b.0 == raft_rpc ]

-- The connection as the side that accepts it sees it, when the side that dialed has sent `more`
-- after the dialing.
abbrev pub far_end : Conn → List ℕ → Conn
far_end c more = record { incoming = c.outgoing ++ more; outgoing = c.incoming }

module _ {ℓ} {Tls : Type ℓ} where
  dial-outgoing :
      (tls : Option Tls) (fresh : Conn)
      → (made : NetConn Tls) × (dial tls (ok fresh) (ok tt) ≡ ok made)
        × ((conn_of made).outgoing ≡ fresh.outgoing ++ (raft_rpc ∷ []))
  unfolding dial dial_tls
  dial-outgoing none fresh = (_, refl, refl)
  dial-outgoing (some cfg) fresh = (_, refl, refl)

  serve_tls-incoming :
      (tls : Option Tls) (c : Conn) → (conn_of (serve_tls tls c)).incoming ≡ c.incoming
  unfolding serve_tls
  serve_tls-incoming none c = refl
  serve_tls-incoming (some cfg) c = refl

  accept-raft :
      (tls : Option Tls) (more out : List ℕ)
      → accept tls (ok (record { incoming = raft_rpc ∷ more; outgoing = out }))
        ≡ ok (serve_tls tls (record { incoming = more; outgoing = out }))
  unfolding accept
  accept-raft tls more out = refl

  -- A connection that Dial has made on a new TCP connection is matched as Raft's, and Accept takes
  -- it: behind the byte that identifies it, just what the dialing side has sent since is left to
  -- read.
  pub accept-dial :
      (client server : Option Tls) (more : List ℕ)
      → (made : NetConn Tls) × (taken : NetConn Tls) × (dial client
            (ok (record { incoming = []; outgoing = [] }))
            (ok tt)
          ≡ ok made)
        × (is_raft (far_end (conn_of made) more).incoming ≡ true)
        × (accept server (ok (far_end (conn_of made) more)) ≡ ok taken)
        × ((conn_of taken).incoming ≡ more)
  unfolding is_raft
  accept-dial client server more =
      let (made, dials, sent) = dial-outgoing client (record { incoming = []; outgoing = [] }) in
      let c = conn_of made in
      (
        made,
        serve_tls server (record { incoming = more; outgoing = c.incoming }),
        dials,
        ap (λ l. is_raft (l ++ more)) sent,
        ap (λ l. accept server (ok (record { incoming = l ++ more; outgoing = c.incoming }))) sent
            ∙ accept-raft server more c.incoming,
        serve_tls-incoming server _,
      )

  -- Accept takes just the connections that the matcher hands to it.
  pub accept_iff :
      (tls : Option Tls) (c : Conn)
      → ((taken : NetConn Tls) × (accept tls (ok c) ≡ ok taken)) ↔ (is_raft c.incoming ≡ true)
  unfolding accept is_raft
  accept_iff tls c = (forth c.incoming c.outgoing, back c.incoming c.outgoing)
    where
      forth :
          (i o : List ℕ)
          → ((taken : NetConn Tls) × (accept tls (ok (record { incoming = i; outgoing = o }))
                ≡ ok taken))
          → is_raft i ≡ true
      forth [] o (taken, h) = cc h
      forth (b ∷ bs) o (taken, h) = ground (arith, h)

      back :
          (i o : List ℕ)
          → is_raft i ≡ true
          → (taken : NetConn Tls) × (accept tls (ok (record { incoming = i; outgoing = o }))
              ≡ ok taken)
      back [] o h = cc h
      back (b ∷ bs) o h =
          (serve_tls tls (record { incoming = bs; outgoing = o }), ground (arith, h))
