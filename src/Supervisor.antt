-- ===== src/Supervisor.antt =====
-- pkg/supervisor/supervisor.go: the states and the file descriptor that a supervisor keeps for a
-- daemon, and what it receives on its socket. Bytes are numbers; `none` is a negative descriptor.
pub mod Kept
mod Examples
use nydus_snapshotter.Base.{
  ℕ, Option, none, some, List, [], ◌∷◌, ◌++◌, Error, failure, Result, ok, err, if◌then◌else◌, ltb,
  ◌>>=◌,
}

abbrev pub Bytes : Type 0
Bytes = List ℕ

-- `Supervisor`, with `MemStatesStorage`.
pub record Supervisor : Type 0 where
  pub states : Bytes
  pub fd : Option ℕ

-- What one connection brings: the chunks that are read until the end or an error, and the
-- descriptors of the first control message, if there is one and it can be parsed.
pub record Connection : Type 0 where
  pub chunks : List Bytes
  pub read_error : Option Error
  pub rights : Result (Option (List ℕ))

abbrev pub joined : List Bytes → Bytes
joined [] = []
joined (c ∷ cs) = c ++ joined cs

abbrev pub first_fd : List ℕ → Option ℕ
first_fd [] = none
first_fd (x ∷ xs) = some x

-- `fmt.Errorf("received no control file descriptor")`.
abbrev pub no_descriptor : Error
no_descriptor = failure 50

abbrev pub descriptor_of : Option (List ℕ) → Result (Option ℕ)
descriptor_of none = err no_descriptor
descriptor_of (some fds) = ok (first_fd fds)

abbrev pub read_all : Option Error → List Bytes → Result Bytes
read_all none chunks = ok (joined chunks)
read_all (some e) chunks = err e

unfoldable pub recv : Connection → Result (Bytes × Option ℕ)
recv c = read_all c.read_error c.chunks >>= λ bytes.
    c.rights >>= λ rights. descriptor_of rights >>= λ fd. ok (bytes, fd)

-- A descriptor that is not positive leaves the old one.
abbrev pub kept_fd : Option ℕ → Option ℕ → Option ℕ
kept_fd old none = old
kept_fd old (some n) = if ltb 0 n then some n else old

unfoldable pub save : Bytes → Option ℕ → Supervisor → Supervisor
save bytes fd su = record su { states = bytes; fd = kept_fd su.fd fd }

abbrev pub load : Supervisor → Bytes × Option ℕ
load su = (su.states, su.fd)

abbrev pub saved : Result (Bytes × Option ℕ) → Supervisor → Supervisor
unfolding save
saved (ok (bytes, fd)) su = save bytes fd su
saved (err e) su = su

-- The receiver of `waitStatesTimeout`: an error leaves what is kept.
unfoldable pub receive : Connection → Supervisor → Supervisor
unfolding recv saved
receive c su = saved (recv c) su

-- Connections in turn; each waits for the one before.
unfoldable pub receive_all : List Connection → Supervisor → Supervisor
unfolding receive
receive_all [] su = su
receive_all (c ∷ cs) su = receive_all cs (receive c su)
