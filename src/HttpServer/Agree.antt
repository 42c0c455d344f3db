-- ===== src/HttpServer/Agree.antt =====
-- The two back ends of poll.h answer alike.
use ukgoll_github_io.Prelude.{
  ℕ, ◌≡◌, refl, sym, ◌∙◌, Bool, true, false, ◌==◌, if◌then◌else◌, Option, none, some, List, [], ◌∷◌,
  arith,
}
use ukgoll_github_io.HttpServer.Poll.{Ptr, eread, Backend}
use ukgoll_github_io.HttpServer.Kqueue.{kqueue_backend}
use ukgoll_github_io.HttpServer.Epoll.{epoll_backend}

-- A call that main.c makes of poll.h, with whether the system call succeeds.
pub data Request : Type 0 where
  add_reader : (ok : Bool) → ℕ → Ptr → Request
  drop : (ok : Bool) → ℕ → Request

abbrev or_same : {K : Type 0} → K → Option K → K
or_same k none = k
or_same k (some k') = k'

module _ {K : Type 0} (backend : Backend K) where
  abbrev pub apply : Request → K → K
  apply (add_reader ok fd c) k = or_same k (backend.add ok fd eread c k)
  apply (drop ok fd) k = or_same k (backend.remove ok fd k)

  abbrev pub apply_all : List Request → K → K
  apply_all [] k = k
  apply_all (r ∷ rs) k = apply_all rs (apply r k)

  -- What a request does to the readable events.
  abbrev expected : Request → (ℕ → Option Ptr) → ℕ → Option Ptr
  expected (add_reader ok fd c) f j = if ok then (if j == fd then some c else f j) else f j
  expected (drop ok fd) f j = if ok then (if j == fd then none else f j) else f j

  apply-expected :
      (r : Request) (k : K) (j : ℕ)
      → backend.reading (apply r k) j ≡ expected r (backend.reading k) j
  apply-expected (add_reader true fd c) k j =
      let (k', q, view) = backend.add-succeeds fd c k in rw q (view j)
  apply-expected (add_reader false fd c) k j = rw (backend.add-fails fd eread c k) refl
  apply-expected (drop true fd) k j =
      let (k', q, view) = backend.remove-succeeds fd k in rw q (view j)
  apply-expected (drop false fd) k j = rw (backend.remove-fails fd k) refl

-- Any two back ends with the laws of poll.h.
agree :
    {K L : Type 0} (b : Backend K) (c : Backend L) (rs : List Request) (k : K) (l : L)
    → ((j : ℕ) → b.reading k j ≡ c.reading l j)
    → (j : ℕ) → b.reading (apply_all b rs k) j ≡ c.reading (apply_all c rs l) j
agree b c [] k l h j = h j
agree b c (r ∷ rs) k l h j =
    agree b c rs (apply b r k) (apply c r l)
      (λ i. apply-expected b r k i ∙ same r i ∙ sym (apply-expected c r l i)) j
  where
    same : (r : Request) (i : ℕ) → expected b r (b.reading k) i ≡ expected c r (c.reading l) i
    same (add_reader ok fd p) i = ground (arith, h i)
    same (drop ok fd) i = ground (arith, h i)

-- After the same calls of `poll_add` for reading and of `poll_delete`, with the same answers of the
-- system, the queue of unix_kqueue.c and the instance of unix_epoll.c, both empty at the start, give
-- each descriptor's readable events the same connection.
pub kqueue-epoll :
    (rs : List Request) (fd : ℕ)
    → kqueue_backend.reading (apply_all kqueue_backend rs (λ j f. none)) fd
      ≡ epoll_backend.reading (apply_all epoll_backend rs (λ j. none)) fd
unfolding kqueue_backend epoll_backend
kqueue-epoll rs fd = agree kqueue_backend epoll_backend rs (λ j f. none) (λ j. none) (λ j. refl) fd
