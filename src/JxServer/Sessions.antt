-- ===== src/JxServer/Sessions.antt =====
-- check_sessions and remove_session on the table of sessions.
use system_programming_and_d.Base.{
  ℕ, ◌≡◌, ◌≢◌, refl, ap, ◌∙◌, inl, inr, Bool, true, false, Bool-cases, List, [], ◌∷◌, ◌++◌, arith,
  ◌==◌, if◌then◌else◌, ok, ◌>>=◌, Returns,
}
use system_programming_and_d.JxServer.{
  Request, Names, Session, same_name, same_range, Check, same_request, invalid_request, new_request,
  check_requests, add_request, after_check, check_sessions, finds_request, write_last, drop_last,
  remove_session,
}

same_name_self : (xs : List ℕ) → same_name xs xs ≡ true
unfolding same_name
same_name_self [] = refl
same_name_self (x ∷ xs) = let e : (x == x) ≡ true = ground arith in rw (e, same_name_self xs) refl

same_range_self : (names : Names) (r : Request) → same_range names r r ≡ true
unfolding same_range
same_range_self names r =
    let e : (r.start_offset == r.start_offset) ≡ true = ground arith in
    let e' : (r.data_length == r.data_length) ≡ true = ground arith in
    rw (same_name_self (names r.target_file), e, e') refl

-- A request behind those that have another session's id.
check_requests-append :
    (names : Names) (requests : List Request) (q r : Request)
    → check_requests names requests r ≡ new_request
    → check_requests names (requests ++ q ∷ []) r ≡ check_requests names (q ∷ []) r
unfolding check_requests
check_requests-append names [] q r h = refl
check_requests-append names (p ∷ requests) q r h =
    elim (Bool-cases (p.session_id == r.session_id)) [
      | inr other ↦ rw other (check_requests-append names requests q r (rw other at h))
      | inl hit ↦ absurd (not_new (same_range names p r) (rw hit at h))
    ]
  where
    not_new : (b : Bool) → (if b then same_request else invalid_request) ≢ new_request
    not_new true e = cc
    not_new false e = cc

drop_last-append :
    (requests : List Request) (q : Request) → drop_last (requests ++ q ∷ []) ≡ ok requests
unfolding drop_last
drop_last-append [] q = refl
drop_last-append (p ∷ []) q = refl
drop_last-append (p ∷ p' ∷ requests) q = rw (drop_last-append (p' ∷ requests) q) refl

write_last-append :
    (requests : List Request) (q r : Request)
    → write_last (requests ++ q ∷ []) r ≡ requests ++ r ∷ []
unfolding write_last
write_last-append [] q r = refl
write_last-append (p ∷ []) q r = refl
write_last-append (p ∷ p' ∷ requests) q r =
    ap (λ (l : List Request). p ∷ l) (write_last-append (p' ∷ requests) q r)

-- Whichever request is to be removed, the one that was added last goes.
remove_session_last :
    (names : Names) (s : Session) (q r : Request) (requests : List Request)
    → s.requests ≡ requests ++ q ∷ []
    → remove_session names s r ≡ ok (record s { requests = requests })
unfolding remove_session
remove_session_last names s q r requests e =
    rw e (pick (finds_request names (requests ++ q ∷ []) r))
  where
    pick :
        (b : Bool)
        → (drop_last (if b then write_last (requests ++ q ∷ []) r else requests ++ q ∷ [])
            >>= λ left. ok (record s { requests = left }))
          ≡ ok (record s { requests = requests })
    pick true = rw (write_last-append requests q r, drop_last-append requests r) refl
    pick false = rw (drop_last-append requests q) refl

check_requests_new :
    (names : Names) (s : Session) (r : Request)
    → check_requests names s.requests r ≡ new_request
    → check_sessions names s r ≡ (new_request, add_request s r)
unfolding check_sessions
check_requests_new names s r e = rw e refl

check_requests_one : (names : Names) (a : Request) → check_requests names (a ∷ []) a ≡ same_request
unfolding check_requests
check_requests_one names a =
    let e : (a.session_id == a.session_id) ≡ true = ground arith in
    rw (e, same_range_self names a) refl

check_requests_other :
    (names : Names) (a b : Request)
    → (a.session_id == b.session_id) ≡ false
    → check_requests names (a ∷ []) b ≡ new_request
unfolding check_requests
check_requests_other names a b apart = rw apart refl

-- The answer is that of the search.
check_sessions-answer :
    (names : Names) (s : Session) (r : Request)
    → (check_sessions names s r).0 ≡ check_requests names s.requests r
unfolding check_sessions
check_sessions-answer names s r = pick (check_requests names s.requests r)
  where
    pick : (c : Check) → (after_check s r c).0 ≡ c
    pick same_request = refl
    pick invalid_request = refl
    pick new_request = refl

-- A session that is not in the table is not there whatever the names are.
check_requests_names :
    (names names' : Names) (requests : List Request) (r : Request)
    → check_requests names requests r ≡ new_request
    → check_requests names' requests r ≡ new_request
unfolding check_requests
check_requests_names names names' [] r h = refl
check_requests_names names names' (p ∷ requests) r h =
    elim (Bool-cases (p.session_id == r.session_id)) [
      | inr other ↦ rw other (check_requests_names names names' requests r (rw other at h))
      | inl hit ↦ absurd (not_new (same_range names p r) (rw hit at h))
    ]
  where
    not_new : (b : Bool) → (if b then same_request else invalid_request) ≢ new_request
    not_new true e = cc
    not_new false e = cc

-- Two sessions with different ids begin in a table that has neither, and then the first ends:
-- remove_session returns, the first is still taken for a request in progress, and the second is
-- forgotten, whatever the memory of the names holds at each call.
pub remove_session-wrong :
    (n0 n1 n2 n3 n4 : Names) (s : Session) (a b : Request)
    → check_requests n0 s.requests a ≡ new_request
    → check_requests n1 s.requests b ≡ new_request
    → (a.session_id == b.session_id) ≡ false
    → Returns
        (λ s'.
          ((check_sessions n3 s' a).0 ≡ same_request) × ((check_sessions n4 s' b).0 ≡ new_request))
        (remove_session n2 (check_sessions n1 (check_sessions n0 s a).1 b).1 a)
remove_session-wrong n0 n1 n2 n3 n4 s a b fresh_a fresh_b apart =
    let behind_a : check_requests n1 (s.requests ++ a ∷ []) b ≡ new_request =
      check_requests-append n1 s.requests a b fresh_b ∙ check_requests_other n1 a b apart in
    let left : Session = record (add_request (add_request s a) b) {
      requests = s.requests ++ a ∷ [];
    } in
    rw
      (
        check_requests_new n0 s a fresh_a,
        check_requests_new n1 (add_request s a) b behind_a,
        remove_session_last n2 (add_request (add_request s a) b) b a (s.requests ++ a ∷ []) refl,
      )
      (
        check_sessions-answer n3 left a
            ∙ check_requests-append n3 s.requests a a
                (check_requests_names n0 n3 s.requests a fresh_a)
            ∙ check_requests_one n3 a,
        check_sessions-answer n4 left b
            ∙ check_requests_names n1 n4 (s.requests ++ a ∷ []) b behind_a,
      )
