-- ===== src/UnixSocket/Tests.antt =====
-- Runs of unix_socket.c, and its theorems at an input.
use blackmount.Common.{ℕ, ◌≡◌, refl, List, [], ◌∷◌, ◌++◌, none, some, take, arith}
use blackmount.Common.Int.{pos}
use blackmount.UnixSocket.RingBuffer.{put_bytes, rb_write}
use blackmount.UnixSocket.Fifo.{contents}
use blackmount.UnixSocket.{
  Net, at, unix_sock_init, unix_sock_create, unix_sock_destroy, unix_sock_bind, unix_sock_listen,
  unix_sock_get, find_slot, find_unused, find_bound, find_listener, bind_at, listen_at, wake_reader,
  path_eq, drop_pending,
}
use blackmount.UnixSocket.Connect.{
  done, unix_sock_accept, unix_sock_connect, connect_at, enqueue, accept_at, join_client,
}
use blackmount.UnixSocket.Transfer.{
  reads, refused, started, unix_sock_write, deliver, unix_sock_read,
}
use blackmount.UnixSocket.IsValid.{IsValid}
use blackmount.UnixSocket.Calls.{after}
use blackmount.UnixSocket.Stream.{Joined, sent, outcome, unix_sock_write_lem}
use blackmount.UnixSocket.Pairing.{unix_sock_accept_lem}
use blackmount.UnixSocket.Hangup.{unix_sock_destroy_lem}
use blackmount.UnixSocket.Reach.{
  Reachable, creates, binds, listens, connects, accepts, starts, then_step, Reachable-IsValid,
}

abbrev booted : Net
booted = record { sock_table = []; current_pid = pos 7; calls = [] }

-- A listener at slot 0 and a client at slot 1 that waits to be accepted.
abbrev calling : Net
unfolding unix_sock_init unix_sock_create unix_sock_bind unix_sock_listen unix_sock_connect
calling =
    let made = (unix_sock_create (unix_sock_create (unix_sock_init booted) 1).1 1).1 in
    after (
      unix_sock_connect (unix_sock_listen (unix_sock_bind made (pos 0) (47 ∷ [])).1 (pos 0)).1
        (pos 1) (47 ∷ []))

calling-Reachable : Reachable calling
unfolding unix_sock_init unix_sock_create unix_sock_bind unix_sock_listen unix_sock_connect
calling-Reachable =
    then_step _ _
      (then_step _ _
        (then_step _ _ (then_step _ _ (then_step _ _ (starts booted) (creates _ 1)) (creates _ 1))
          (binds _ (pos 0) (47 ∷ [])))
        (listens _ (pos 0)))
      (connects _ (pos 1) (47 ∷ []))

Reachable-IsValid_example : IsValid calling
Reachable-IsValid_example = Reachable-IsValid calling calling-Reachable

calling-IsValid : IsValid calling
calling-IsValid = Reachable-IsValid calling calling-Reachable

calling_listener : unix_sock_get calling (pos 0) ≡ some 0
unfolding unix_sock_get find_unused find_slot bind_at find_bound listen_at connect_at find_listener
    path_eq wake_reader enqueue calling
calling_listener = refl

calling_client : unix_sock_get calling (pos 1) ≡ some 1
unfolding unix_sock_get find_unused find_slot bind_at find_bound listen_at connect_at find_listener
    path_eq wake_reader enqueue calling
calling_client = refl

calling_free : find_unused calling ≡ some 2
unfolding unix_sock_get find_unused find_slot bind_at find_bound listen_at connect_at find_listener
    path_eq wake_reader enqueue calling
calling_free = refl

unix_sock_accept_lem_example :
    (left : Net) × (unix_sock_accept calling (pos 0) ≡ done (pos 2) left)
    × IsValid left
    × Joined left 2 1
    × Joined left 1 2
    × (at left 0 ≡ drop_pending (at calling 0))
unfolding unix_sock_get find_unused find_slot bind_at find_bound listen_at connect_at find_listener
    path_eq wake_reader enqueue calling
unix_sock_accept_lem_example =
    unix_sock_accept_lem calling 0 1 2 calling-IsValid calling_listener refl (omega arith) refl
      calling_client (λ e. absurd (omega (arith, e))) calling_free

-- Slots 1 and 2 are connected to each other.
abbrev talking : Net
unfolding unix_sock_accept
talking = after (unix_sock_accept calling (pos 0))

talking-IsValid : IsValid talking
unfolding unix_sock_accept
talking-IsValid =
    Reachable-IsValid talking (then_step calling _ calling-Reachable (accepts calling (pos 0)))

talking-Joined : Joined talking 2 1
unfolding unix_sock_get find_unused find_slot bind_at find_bound listen_at connect_at find_listener
    path_eq wake_reader enqueue calling unix_sock_accept accept_at join_client talking
talking-Joined = record {
  peer = refl;
  here = refl;
  opened = refl;
  apart = λ e. absurd (omega (arith, e));
}

abbrev greeting : List ℕ
greeting = 104 ∷ 105 ∷ []

talking_server : unix_sock_get talking (pos 2) ≡ some 2
unfolding unix_sock_get find_unused find_slot bind_at find_bound listen_at connect_at find_listener
    path_eq wake_reader enqueue calling unix_sock_accept accept_at join_client talking
talking_server = refl

unix_sock_write_lem_example :
    (left : Net) × (unix_sock_write 3 talking (pos 2) greeting
      ≡ started (some (outcome 0 (sent talking 1 greeting) greeting left)))
    × IsValid left
    × Joined left 2 1
    × (contents (at left 1).rx
        ≡ contents (at talking 1).rx ++ take (sent talking 1 greeting) greeting)
unfolding unix_sock_get find_unused find_slot bind_at find_bound listen_at connect_at find_listener
    path_eq wake_reader enqueue calling unix_sock_accept accept_at join_client talking
unix_sock_write_lem_example =
    unix_sock_write_lem 3 talking 2 1 greeting talking-IsValid talking_server refl talking-Joined
      (omega arith) (omega arith)

-- Two bytes wait at slot 1.
abbrev spoken : Net
unfolding deliver rb_write put_bytes
spoken = deliver talking 1 greeting

talking_client : unix_sock_get talking (pos 1) ≡ some 1
unfolding unix_sock_get find_unused find_slot bind_at find_bound listen_at connect_at find_listener
    path_eq wake_reader enqueue calling unix_sock_accept accept_at join_client talking
talking_client = refl

unix_sock_destroy_lem_example :
    (let left = unix_sock_destroy talking (pos 2) in
      (unix_sock_get left (pos 2) ≡ none)
      × ((at left 1).rx ≡ (at talking 1).rx)
      × ((fuel : ℕ) (buf : List ℕ) → unix_sock_write fuel left (pos 1) buf ≡ refused)
      × ((count : ℕ)
          → (at talking 1).rx.count ≡ 0
          → unix_sock_read left (pos 1) count ≡ reads [] left))
unfolding unix_sock_get find_unused find_slot bind_at find_bound listen_at connect_at find_listener
    path_eq wake_reader enqueue calling unix_sock_accept accept_at join_client talking
unix_sock_destroy_lem_example =
    unix_sock_destroy_lem talking 2 1 talking-IsValid talking_server refl talking_client
      (λ e. absurd (omega (arith, e)))
