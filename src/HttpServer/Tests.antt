-- ===== src/HttpServer/Tests.antt =====
-- A batch of events of aco_httpd, and the theorems at it.
use ukgoll_github_io.Prelude.{
  ◌≡◌, ◌≢◌, refl, inl, inr, Bool, true, false, ◌==◌, none, some, List, [], ◌∷◌, arith, subst,
  Bool-cases,
}
use ukgoll_github_io.HttpServer.Poll.{null}
use ukgoll_github_io.HttpServer.Kqueue.{Queue, evfilt_read, put, kqueue_backend}
use ukgoll_github_io.HttpServer.Epoll.{epoll_backend}
use ukgoll_github_io.HttpServer.State.{Server, done, store, eagain, set_non_blocking}
use ukgoll_github_io.HttpServer.Accept.{got_client, accept_fails, Attempt}
use ukgoll_github_io.HttpServer.Routine.{got, end_of_file, Replies}
use ukgoll_github_io.HttpServer.Loop.{Event, Answers, resume, on_event, on_events}
use ukgoll_github_io.HttpServer.Inv.{Alive, Inv, IsFresh}
use ukgoll_github_io.HttpServer.Batch.{AllFair, on_events_safe}
use ukgoll_github_io.HttpServer.Lifecycle.{AllServed, reads_of, hang_up_frees}
use ukgoll_github_io.HttpServer.Agree.{Request, add_reader, drop, apply_all, kqueue-epoll}
use ukgoll_github_io.Prelude.{ℕ, ◌++◌}
use ukgoll_github_io.HttpServer.State.{free_conn, destroyed, closed, free_sa}
use ukgoll_github_io.HttpServer.Setup.{SetupAnswers}

-- The listener is 3; the client 5 has the connection 100 and the routine 200.
abbrev one_client : Server Queue
one_client = record {
  kernel = put 5 evfilt_read (some 100) (put 3 evfilt_read (some null) (λ j f. none));
  conns = store 100 (some (record { fd = 5; routine = 200; sa = 300 })) (λ p. none);
  routines = store 200 (some (record { arg = 100; is_end = false })) (λ p. none);
  calls = [];
}

Alive-client : Alive one_client 5 100
Alive-client = record { routine = 200; sa = 300; conn_at = refl; routine_at = refl }

-- The client 6 comes, and then `accept` has nothing more.
abbrev comes : Attempt
comes = record {
  sa = 301;
  block = 101;
  accept = got_client 6;
  fcntl = none;
  routine = 201;
  add_ok = true;
}

abbrev nothing_more : Attempt
nothing_more = record {
  sa = 302;
  block = 102;
  accept = accept_fails eagain;
  fcntl = none;
  routine = null;
  add_ok = true;
}

abbrev hang_up : Bool → Replies
hang_up ok = record { reads = got ∷ end_of_file ∷ []; write_ok = true; delete_ok = ok }

abbrev batch : List (Answers × Event)
batch =
    (
      record { attempts = comes ∷ nothing_more ∷ []; replies = hang_up true },
      record { ident = 3; readable = true; udata = null },
    )
    ∷ (
      record { attempts = []; replies = hang_up true },
      record { ident = 5; readable = true; udata = 100 },
    )
    ∷ []

client_Inv : Inv kqueue_backend 3 one_client
unfolding kqueue_backend
client_Inv fd p n r = elim (Bool-cases (fd == 5)) [
  | inl e ↦
      let here : 5 ≡ fd = ground (arith, e) in
      let there : 100 ≡ p = cc (rw e at r) in
      subst (λ j. Alive one_client j p) here (subst (λ q. Alive one_client 5 q) there Alive-client)
  | inr e ↦ absurd (ground (arith, e, r, n))
]

batch_fair : AllFair kqueue_backend 3 batch one_client
unfolding on_event set_non_blocking kqueue_backend
batch_fair =
    let first : IsFresh kqueue_backend 3 comes one_client = record {
      new_block = refl;
      new_routine = refl;
      new_fd = λ fd e.
          let here : 6 ≡ fd = cc in
          subst (λ j. (j ≢ 3) × (kqueue_backend.reading one_client.kernel j ≡ none)) here
            (omega arith, refl);
    } in
    (
      ((first, (record { new_block = refl; new_routine = refl; new_fd = λ fd e. cc }, tt)), refl),
      ((refl, refl), tt),
    )

reported : kqueue_backend.reading one_client.kernel 5 ≡ some 100
unfolding kqueue_backend
reported = refl

on_events_safe_example :
    (s' : Server Queue) × (on_events kqueue_backend 3 batch one_client ≡ done s')
    × Inv kqueue_backend 3 s'
on_events_safe_example =
    on_events_safe kqueue_backend 3 batch one_client client_Inv
      (inl refl, (omega arith, tt), (inr reported, tt, tt)) batch_fair

two_served : AllServed (comes ∷ [])
two_served = (refl, refl, (6, refl), refl, tt)

hang_up_frees_example :
    (s' : Server Queue) × (n : ℕ) × (resume kqueue_backend (hang_up true) 100 one_client ≡ done s')
    × (s'.calls ≡ free_conn 100 ∷ destroyed 200 ∷ closed 5 ∷ free_sa 300 ∷ reads_of n 5 ++ [])
    × (s'.conns 100 ≡ none)
    × (s'.routines 200 ≡ none)
unfolding Alive-client
hang_up_frees_example =
    hang_up_frees kqueue_backend (hang_up true) 5 100 one_client Alive-client refl refl

abbrev all_made : SetupAnswers
all_made = record {
  queue = some 4;
  main_co = 1;
  s_stack = 2;
  socket = some 3;
  fcntl = some 9;
  bind_ok = true;
  listen_ok = true;
  kevent_ok = true;
}

abbrev requests : List Request
requests = add_reader true 5 100 ∷ add_reader true 6 101 ∷ drop true 5 ∷ []

kqueue-epoll_example :
    kqueue_backend.reading (apply_all kqueue_backend requests (λ j f. none)) 6
    ≡ epoll_backend.reading (apply_all epoll_backend requests (λ j. none)) 6
kqueue-epoll_example = kqueue-epoll requests 6
