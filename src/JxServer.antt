-- ===== src/JxServer.antt =====
-- JXServer: the table of the sessions that retrieve a file (helper_fun.c, server.h). The table is
-- the list of its first `size` requests; the lock makes each call a step of its own. A fault is the
-- wrap-around of a size that is 0.
pub mod Sessions
pub mod Tests
use system_programming_and_d.Base.{
  ℕ, ◌+◌, ◌*◌, Bool, true, false, not, ◌&&◌, ◌||◌, List, [], ◌∷◌, ◌++◌, length, ◌==◌, if◌then◌else◌,
  Outcome, ok, fault, ◌>>=◌,
}

-- struct request; the name of the file is a pointer into the payload that the connection received.
pub record Request : Type 0 where
  pub session_id : ℕ
  pub target_file : ℕ
  pub start_offset : ℕ
  pub data_length : ℕ

-- struct session
pub record Session : Type 0 where
  pub requests : List Request
  pub capacity : ℕ

abbrev pub session_init : Session
session_init = record { requests = []; capacity = 20 }

-- `strcmp(a, b) == 0`
unfoldable pub same_name : List ℕ → List ℕ → Bool
same_name [] [] = true
same_name [] (y ∷ ys) = false
same_name (x ∷ xs) [] = false
same_name (x ∷ xs) (y ∷ ys) = x == y && same_name xs ys

-- The bytes at each address when a call reads them. A connection reuses the memory of its payload
-- for the next message, so that each call has its own.
abbrev pub Names : Type 0
Names = ℕ → List ℕ

abbrev pub same_range : Names → Request → Request → Bool
unfolding same_name
same_range names req r =
    same_name (names req.target_file) (names r.target_file)
    && req.start_offset == r.start_offset
    && req.data_length == r.data_length

-- The result of check_sessions: 1, -1 or 0.
pub data Check : Type 0 where
  same_request : Check
  invalid_request : Check
  new_request : Check

-- The loop of check_sessions: the first request with the session's id decides.
unfoldable pub check_requests : Names → List Request → Request → Check
unfolding same_range
check_requests names [] r = new_request
check_requests names (req ∷ requests) r =
    let rest = check_requests names requests r in
    if req.session_id == r.session_id
    then (if same_range names req r then same_request else invalid_request)
    else rest

-- A new request goes to the end; the capacity doubles where it is reached.
abbrev pub add_request : Session → Request → Session
add_request s r = record {
  requests = s.requests ++ r ∷ [];
  capacity = (if length s.requests == s.capacity then s.capacity * 2 else s.capacity);
}

abbrev pub after_check : Session → Request → Check → Check × Session
after_check s r same_request = (same_request, s)
after_check s r invalid_request = (invalid_request, s)
after_check s r new_request = (new_request, add_request s r)

unfoldable pub check_sessions : Names → Session → Request → Check × Session
unfolding check_requests
check_sessions names s r = after_check s r (check_requests names s.requests r)

-- Whether the loop of remove_session finds the request.
unfoldable pub finds_request : Names → List Request → Request → Bool
unfolding same_range
finds_request names [] r = false
finds_request names (req ∷ requests) r =
    req.session_id == r.session_id && same_range names req r || finds_request names requests r

-- `requests[size - 1]` is overwritten.
unfoldable pub write_last : List Request → Request → List Request
write_last [] r = []
write_last (q ∷ []) r = r ∷ []
write_last (q ∷ p ∷ requests) r = q ∷ write_last (p ∷ requests) r

-- `size--`
unfoldable pub drop_last : List Request → Outcome (List Request)
drop_last [] = fault
drop_last (q ∷ []) = ok []
drop_last (q ∷ p ∷ requests) = drop_last (p ∷ requests) >>= λ r. ok (q ∷ r)

unfoldable pub remove_session : Names → Session → Request → Outcome Session
unfolding finds_request write_last drop_last
remove_session names s r = do
  let requests = (if finds_request names s.requests r then write_last s.requests r else s.requests)
  left ← drop_last requests
  ok (record s { requests = left })
