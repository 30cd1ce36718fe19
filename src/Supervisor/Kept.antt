-- ===== src/Supervisor/Kept.antt =====
-- What a supervisor keeps after several connections.
use nydus_snapshotter.Base.{
  ℕ, ◌≡◌, refl, Option, none, some, List, [], ◌∷◌, Result, ok, err, ltb, if◌then◌else◌,
}
use nydus_snapshotter.Supervisor.{
  Bytes, Supervisor, Connection, recv, save, saved, load, receive, receive_all,
}

-- The messages that were received whole, in their order.
unfoldable pub messages : List Connection → List (Bytes × Option ℕ)
messages [] = []
messages (c ∷ cs) = elim (recv c) [ ok m ↦ m ∷ messages cs | err e ↦ messages cs ]

-- The last state, and the last positive descriptor, of the messages, or what was there before.
abbrev pub last_states : Bytes → List (Bytes × Option ℕ) → Bytes
last_states old [] = old
last_states old ((bytes, fd) ∷ ms) = last_states bytes ms

abbrev pub last_fd : Option ℕ → List (Bytes × Option ℕ) → Option ℕ
last_fd old [] = old
last_fd old ((bytes, none) ∷ ms) = last_fd old ms
last_fd old ((bytes, some n) ∷ ms) = last_fd (if ltb 0 n then some n else old) ms

step-messages :
    (r : Result (Bytes × Option ℕ)) (cs : List Connection) (su : Supervisor)
    → ((s : Supervisor)
        → load (receive_all cs s)
          ≡ (last_states s.states (messages cs), last_fd s.fd (messages cs)))
    → load (receive_all cs (saved r su)) ≡ (
      last_states su.states (elim r [ ok m ↦ m ∷ messages cs | err e ↦ messages cs ]),
      last_fd su.fd (elim r [ ok m ↦ m ∷ messages cs | err e ↦ messages cs ]),
    )
unfolding saved save
step-messages (ok (bytes, none)) cs su h = h (save bytes none su)
step-messages (ok (bytes, some n)) cs su h = h (save bytes (some n) su)
step-messages (err e) cs su h = h su

-- After any connections, broken ones included, a supervisor keeps the states of the last message
-- that came whole, and the descriptor of the last such message with a positive one, which may be an
-- earlier message; and what it kept before where there is none.
pub receive_all_lem :
    (cs : List Connection) (su : Supervisor)
    → load (receive_all cs su) ≡ (last_states su.states (messages cs), last_fd su.fd (messages cs))
unfolding receive_all receive messages
receive_all_lem [] su = refl
receive_all_lem (c ∷ cs) su = step-messages (recv c) cs su (receive_all_lem cs)
