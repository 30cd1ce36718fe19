-- ===== src/Supervisor/Examples.antt =====
-- A supervisor that receives three messages: one with a descriptor, one without, one broken.
use nydus_snapshotter.Base.{◌≡◌, none, some, [], ◌∷◌, failure, ok}
use nydus_snapshotter.Supervisor.{Supervisor, Connection, load, receive_all, recv}
use nydus_snapshotter.Supervisor.Kept.{messages, receive_all_lem}

abbrev first : Connection
first = record { chunks = (1 ∷ []) ∷ (2 ∷ []) ∷ []; read_error = none; rights = ok (some (9 ∷ [])) }

abbrev second : Connection
second = record { chunks = (3 ∷ []) ∷ []; read_error = none; rights = ok (some []) }

abbrev third : Connection
third = record { chunks = (4 ∷ []) ∷ []; read_error = some (failure 1); rights = ok (some []) }

abbrev empty_handed : Supervisor
empty_handed = record { states = []; fd = none }

receive_all_lem_example :
    load (receive_all (first ∷ second ∷ third ∷ []) empty_handed) ≡ (3 ∷ [], some 9)
unfolding messages recv
receive_all_lem_example = receive_all_lem (first ∷ second ∷ third ∷ []) empty_handed
