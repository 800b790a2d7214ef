-- ===== src/JxServer/Tests.antt =====
-- Runs of the code at small inputs, and the theorem at one.
use system_programming_and_d.Base.{◌≡◌, refl, [], ◌∷◌, Returns, ◌==◌, if◌then◌else◌}
use system_programming_and_d.JxServer.{
  Request, Names, session_init, check_requests, same_request, invalid_request, new_request,
  check_sessions, remove_session,
}
use system_programming_and_d.JxServer.Sessions.{remove_session-wrong}

-- The files a and b.
abbrev file_names : Names
file_names p = if p == 40 then 97 ∷ [] else 98 ∷ []

-- The next message of the connection is there.
abbrev reused : Names
reused p = 0 ∷ []

abbrev first_request : Request
first_request = record { session_id = 1; target_file = 40; start_offset = 0; data_length = 8 }

abbrev second_request : Request
second_request = record { session_id = 2; target_file = 80; start_offset = 4; data_length = 8 }

-- The same session asks for another range.
other_range :
    check_requests file_names (first_request ∷ []) (record first_request { start_offset = 8 })
    ≡ invalid_request
unfolding check_requests
other_range = refl

remove_session-wrong_example :
    Returns
      (λ s'.
        ((check_sessions reused s' first_request).0 ≡ same_request)
        × ((check_sessions file_names s' second_request).0 ≡ new_request))
      (remove_session reused
        (check_sessions file_names
          (check_sessions file_names session_init first_request).1
          second_request).1
        first_request)
unfolding check_requests
remove_session-wrong_example =
    remove_session-wrong file_names file_names reused reused file_names session_init first_request
      second_request refl refl refl
